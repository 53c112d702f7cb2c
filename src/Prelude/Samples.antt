-- ===== src/Prelude/Samples.antt =====
-- Data for the tests.
use Prim.Native.Nat.{ℕ, ◌+◌, ◌-◌, ◌*◌, ◌/◌}
use sysbench.Prelude.Tests.{ltb}
use sysbench.Prelude.Int.{pos}
use sysbench.Prelude.Float.{Double}

-- Doubles as natural numbers, with the identity for log and exp.
abbrev pub counting : Double
counting = record {
  D = ℕ;
  add = ◌+◌;
  sub = ◌-◌;
  mul = ◌*◌;
  div = ◌/◌;
  lt = ltb;
  log = λ x. x;
  exp = λ x. x;
  floor = pos;
  of_nat = λ n. n;
  half = 0;
}

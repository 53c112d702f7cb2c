-- ===== src/Prelude/Float.antt =====
-- The C type double, which the checker does not have: its values and the operations the program
-- calls (arithmetic, the functions of math.h and the conversions) are a parameter.
use sysbench.Prelude.Int.{ℤ}
use Prim.Native.Nat.{ℕ}
use mathlib.Core.Bool.{Bool}

pub record Double : Type 1 where
  pub D : Type 0
  pub add : D → D → D
  pub sub : D → D → D
  pub mul : D → D → D
  pub div : D → D → D
  pub lt : D → D → Bool
  pub log : D → D
  pub exp : D → D
  -- the integer that floor returns, as a value of an integer type
  pub floor : D → ℤ
  -- the conversion of an unsigned integer
  pub of_nat : ℕ → D
  -- the constant 0.5
  pub half : D

-- ===== src/Bench/Cpu/Tests.antt =====
-- The count of primes of src/tests/cpu/sb_cpu.c at concrete limits.
use sysbench.Prelude.{ℕ, ◌-◌, ◌*◌, ◌≡◌, refl, Bool, none, some, arith, leb}
use sysbench.Prelude.Int.{pos}
use sysbench.Bench.Cpu.{cpu_init, execute_event}
use sysbench.Bench.Cpu.Primes.{IsRoot, primes_from, execute_event-primes}

-- The exact comparison with a root.
abbrev square_le : ℕ → ℕ → Bool
square_le l c = leb (l * l) c

square_le-IsRoot : IsRoot square_le
square_le-IsRoot l c word = refl

no_limit : cpu_init (pos 0) ≡ none
unfolding cpu_init
no_limit = refl

ten_below_32 : execute_event square_le 32 ≡ some 10
unfolding execute_event
ten_below_32 = refl

execute_event-primes_example : execute_event square_le 1000 ≡ some (primes_from (1000 - 3) 3)
execute_event-primes_example = execute_event-primes square_le 1000 square_le-IsRoot (omega arith)

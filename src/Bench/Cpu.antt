-- ===== src/Bench/Cpu.antt =====
-- src/tests/cpu/sb_cpu.c: one event counts the primes below a limit. The comparison of an integer
-- with `sqrt` of another, in double, is a parameter.
pub mod Primes
mod Tests
use sysbench.Prelude.{
  ℕ, zero, suc, ◌+◌, ◌-◌, ◌%◌, Bool, true, false, not, u32, ltb, leb, ◌==◌, if◌then◌else◌, Option,
  none, some, ◌>>=◌,
}
use sysbench.Prelude.Int.{ℤ, pos, negsuc}

-- cpu_init: max_prime, of the value of --cpu-max-prime
unfoldable pub cpu_init : ℤ → Option ℕ
cpu_init (pos zero) = none
cpu_init (pos (suc n)) = some (suc n)
cpu_init (negsuc n) = none

-- The inner loop from `l`: the value of `l` at its end, by the divisor that breaks it or by the
-- first number above the root. `le_sqrt l c` is `l <= sqrt((double) c)`.
unfoldable pub divide_from : (ℕ → ℕ → Bool) → ℕ → ℕ → ℕ → Option ℕ
divide_from le_sqrt zero c l = none
divide_from le_sqrt (suc fuel) c l =
    let rest = divide_from le_sqrt fuel c (suc l) in
    if not (le_sqrt l c) then some l else if c % l == 0 then some l else rest

-- `if (l > t) n++`
unfoldable pub count_if : (ℕ → ℕ → Bool) → ℕ → ℕ → Option ℕ → Option ℕ
count_if le_sqrt c n none = none
count_if le_sqrt c n (some l) = some (if le_sqrt l c then n else suc n)

-- The outer loop of cpu_execute_event over `rounds` values from `c`: the final `n`, if `fuel` is
-- enough for each inner loop.
unfoldable pub count_from : (ℕ → ℕ → Bool) → ℕ → ℕ → ℕ → ℕ → Option ℕ
unfolding divide_from count_if
count_from le_sqrt fuel zero c n = some n
count_from le_sqrt fuel (suc rounds) c n =
    count_if le_sqrt c n (divide_from le_sqrt fuel c 2) >>= λ n'.
    count_from le_sqrt fuel rounds (suc c) n'

-- cpu_execute_event with max_prime, and the fuel for its inner loops; `c` starts at 3.
unfoldable pub execute_event : (ℕ → ℕ → Bool) → ℕ → Option ℕ
unfolding count_from
execute_event le_sqrt max_prime = count_from le_sqrt max_prime (max_prime - 3) 3 0

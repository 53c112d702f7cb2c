-- ===== src/Random/Uniform.antt =====
-- src/sb_rand.c: the range of the uniform distribution.
use sysbench.Prelude.{ℕ, suc, ◌+◌, ◌-◌, ◌*◌, ◌^◌, ◌≤◌, ◌<◌, ◌≡◌, arith, u32_mod}
use sysbench.Prelude.Round.{round, round-le, round-ge}
use native.Mathlib.Nat.{mul-le-mul_right}
use sysbench.Random.{Rng, uniform_double, xoroshiro_next, span, uniform_sum, uniform}

-- One 2^52nd part.
abbrev pub one : ℕ
one = 2 ^ 52

abbrev pub IsIn : ℕ → ℕ → ℕ → Type 0
IsIn low high n = (low ≤ n) × (n ≤ high)

pub uniform_double-lt : (r : Rng) → (uniform_double r).0 < one
unfolding uniform_double xoroshiro_next
uniform_double-lt r = omega arith

span_lem : (a b : ℕ) → a ≤ b → suc b < u32_mod → span a b ≡ b - a + 1
unfolding span
span_lem a b h word = omega arith

uniform_sum-IsIn :
    (a b x : ℕ)
    → a ≤ b
    → suc b < u32_mod
    → x < one
    → IsIn (a * one) (suc b * one) (uniform_sum a b x)
unfolding uniform_sum
uniform_sum-IsIn a b x h word below =
    let s : span a b ≡ b - a + 1 = span_lem a b h word in
    let scaled : x * span a b ≤ one * span a b = mul-le-mul_right (span a b) (omega arith) in
    let product : round (x * span a b) ≤ span a b * one =
      round-le (span a b) (x * span a b) (omega (arith, scaled)) in
    (
      round-ge a (a * one + round (x * span a b)) (omega arith),
      round-le (suc b) (a * one + round (x * span a b)) (omega (arith, s, product)),
    )

-- For a <= b < 2^32 - 1 and every state of the generator, sb_rand_uniform(a, b) is at least a and
-- at most b + 1.
pub uniform-IsIn : (r : Rng) (a b : ℕ) → a ≤ b → suc b < u32_mod → IsIn a (suc b) (uniform r a b).0
unfolding uniform
uniform-IsIn r a b h word =
    let (low, high) = uniform_sum-IsIn a b (uniform_double r).0 h word (uniform_double-lt r) in
    (omega (arith, low, high), omega (arith, low, high))

uniform_sum_whole : (x : ℕ) → uniform_sum 0 (u32_mod - 1) x ≡ 0
unfolding uniform_sum span round
uniform_sum_whole x = let none : x * 0 ≡ 0 = omega arith in rw none

-- With the whole range of uint32_t the width b - a + 1 wraps to 0: sb_rand_uniform(0, 2^32 - 1) is
-- always 0.
pub uniform-whole : (r : Rng) → (uniform r 0 (u32_mod - 1)).0 ≡ 0
unfolding uniform
uniform-whole r = rw (uniform_sum_whole (uniform_double r).0)

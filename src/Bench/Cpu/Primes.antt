-- ===== src/Bench/Cpu/Primes.antt =====
-- What cpu_execute_event (src/tests/cpu/sb_cpu.c) counts.
use sysbench.Prelude.{
  ℕ, zero, suc, ◌+◌, ◌-◌, ◌*◌, ◌/◌, ◌%◌, ◌≤◌, ◌<◌, ◌≡◌, ◌≢◌, ◌∙◌, ◌⊎◌, inl, inr, refl, ap, Bool,
  true, false, not, ◌&&◌, ◌||◌, arith, u32_mod, ltb, leb, ◌==◌, ==_iff, if◌then◌else◌, some,
  Bool-cases,
}
use native.Mathlib.Nat.{div-add-mod, mul-mod_left}
use sysbench.Bench.Cpu.{divide_from, count_if, count_from, execute_event}

-- No number from 2 up to below `n` divides `c`.
pub no_divisor_below : ℕ → ℕ → Bool
no_divisor_below zero c = true
no_divisor_below (suc d) c = no_divisor_below d c && (ltb d 2 || not (c % d == 0))

-- A number above 1 is prime when no smaller number from 2 on divides it.
pub is_prime : ℕ → Bool
unfolding no_divisor_below
is_prime c = leb 2 c && no_divisor_below c c

-- The primes from `c` on, among `rounds` numbers.
pub primes_from : ℕ → ℕ → ℕ
unfolding is_prime
primes_from zero c = 0
primes_from (suc rounds) c = (if is_prime c then 1 else 0) + primes_from rounds (suc c)

no_divisor-elim : (n c d : ℕ) → no_divisor_below n c ≡ true → d < n → 2 ≤ d → c % d ≢ 0
unfolding no_divisor_below
no_divisor-elim zero c d h lt two e = absurd (omega arith)
no_divisor-elim (suc n) c d h lt two e = elim (Bool-cases (d == n)) [
  | inl last ↦ let same : d ≡ n = (==_iff d n).0 last in ground (arith, same, e)
  | inr earlier ↦ no_divisor-elim n c d (ground arith) (ground arith) two e
]

no_divisor-intro : (n c : ℕ) → ((d : ℕ) → d < n → 2 ≤ d → c % d ≢ 0) → no_divisor_below n c ≡ true
unfolding no_divisor_below
no_divisor-intro zero c h = refl
no_divisor-intro (suc n) c h =
    let below : no_divisor_below n c ≡ true =
      no_divisor-intro n c (λ d lt two. h d (omega arith) two) in
    rw below (elim (Bool-cases (ltb n 2)) [
      | inl small ↦ rw small refl
      | inr large ↦
          let none_here : (c % n == 0) ≡ false = ground (arith, h n (omega arith) (ground arith)) in
          rw (none_here, large) refl
    ])

-- A divisor has a partner, and the smaller of the two is at most the root.
partner :
    (c d : ℕ) → 2 ≤ d → d < c → c % d ≡ 0 → (e : ℕ) × (c ≡ d * e) × (2 ≤ e) × (e < c) × (c % e ≡ 0)
partner c d two lt h =
    (c / d, e, at_least, below (c / d) e at_least, ap (λ k. k % (c / d)) e ∙ mul-mod_left d (c / d))
  where
    e : c ≡ d * (c / d)
    e = omega (arith, div-add-mod c d, h)

    two_of : (q : ℕ) → c ≡ d * q → 2 ≤ q
    two_of zero k = absurd (omega (arith, lt, k))
    two_of (suc zero) k = absurd (omega (arith, lt, k))
    two_of (suc (suc q)) k = omega arith

    at_least : 2 ≤ c / d
    at_least = two_of (c / d) e

    below : (q : ℕ) → c ≡ d * q → 2 ≤ q → q < c
    below q k t = grind (arith, k, t, two)

-- If no number from 2 up to below `r` divides `c`, and `r * r` is above `c`, then `c` is prime.
prime_of : (c r : ℕ) → 2 ≤ c → c < r * r → no_divisor_below r c ≡ true → is_prime c ≡ true
unfolding is_prime
prime_of c r two above h =
    let free = no_divisor-intro c c (λ d lt t e.
      let (q, k, tq, lq, eq) = partner c d t lt e in
      elim (Bool-cases (ltb d r)) [
        | inl small ↦ no_divisor-elim r c d h (ground arith) t e
        | inr large ↦ no_divisor-elim r c q h (other_small c d q r k above (ground arith)) tq eq
      ]) in
    rw free (ground arith)
  where
    other_small : (c d q r : ℕ) → c ≡ d * q → c < r * r → r ≤ d → q < r
    other_small c d q r k above large = grind arith

composite_of : (c r : ℕ) → 2 ≤ r → r * r ≤ c → c % r ≡ 0 → is_prime c ≡ false
unfolding is_prime
composite_of c r two under e = elim (Bool-cases (no_divisor_below c c)) [
  | inl free ↦ absurd (no_divisor-elim c c r free (grind arith) two e)
  | inr divided ↦ ground arith
]

-- What `sqrt` of IEEE 754 gives for these numbers: it is correctly rounded, and a square up to 2 ^
-- 32 is far from its neighbours' roots.
abbrev pub IsRoot : (ℕ → ℕ → Bool) → Type 0
IsRoot le_sqrt = (l c : ℕ) → c < u32_mod → le_sqrt l c ≡ leb (l * l) c

-- How the inner loop ends: above the root with no divisor found, or at a divisor.
Ends : (ℕ → ℕ → Bool) → ℕ → ℕ → Type 0
Ends le_sqrt c r =
    ((le_sqrt r c ≡ false) × (c < r * r) × (no_divisor_below r c ≡ true))
    ⊎ ((le_sqrt r c ≡ true) × (2 ≤ r) × (r * r ≤ c) × (c % r ≡ 0))

square_bound : (l c : ℕ) → 2 ≤ l → l * l ≤ c → suc l ≤ suc c
square_bound l c two h = grind arith

module _ (le_sqrt : ℕ → ℕ → Bool) (root : IsRoot le_sqrt) where
  divide_from-Ends :
      (fuel c l : ℕ)
      → 2 ≤ l
      → l ≤ suc c
      → suc c < fuel + l
      → c < u32_mod
      → no_divisor_below l c ≡ true
      → (r : ℕ) × (divide_from le_sqrt fuel c l ≡ some r) × Ends le_sqrt c r
  unfolding divide_from Ends no_divisor_below
  divide_from-Ends zero c l two start enough word free = absurd (omega arith)
  divide_from-Ends (suc fuel) c l two start enough word free = elim (Bool-cases (le_sqrt l c)) [
    | inr above ↦ (l, rw above refl, inl (above, ground (arith, root l c word), free))
    | inl below ↦ elim (Bool-cases (c % l == 0)) [
      | inl divided ↦ (
        l,
        rw (below, divided) refl,
        inr (below, two, ground (arith, root l c word), (==_iff _ 0).0 divided),
      )
      | inr whole ↦
          let under : l * l ≤ c = ground (arith, root l c word) in
          let later : suc l ≤ suc c = square_bound l c two under in
          let (r, e, ends) =
            divide_from-Ends fuel c (suc l) (omega arith) later (omega arith) word
              (ground (arith, free, whole)) in
          (r, rw (below, whole) e, ends)
    ]
  ]

  count_if-prime :
      (fuel c n : ℕ)
      → 3 ≤ c
      → c ≤ fuel
      → c < u32_mod
      → count_if le_sqrt c n (divide_from le_sqrt fuel c 2)
        ≡ some ((if is_prime c then 1 else 0) + n)
  unfolding count_if Ends
  count_if-prime fuel c n three enough word =
      let (r, e, ends) =
        divide_from-Ends fuel c 2 (omega arith) (omega arith) (omega arith) word
          (unfold no_divisor_below in refl) in
      rw e (elim ends [
        | inl (above, square, free) ↦
            rw (above, prime_of c r (omega arith) square free) (ap some (omega arith))
        | inr (below, two, square, divides) ↦
            rw (below, composite_of c r two square divides) (ap some (omega arith))
      ])

  count_from-primes :
      (fuel rounds c n : ℕ)
      → 3 ≤ c
      → c + rounds ≤ fuel
      → fuel < u32_mod
      → count_from le_sqrt fuel rounds c n ≡ some (primes_from rounds c + n)
  unfolding count_from primes_from
  count_from-primes fuel zero c n three enough word = ap some (omega arith)
  count_from-primes fuel (suc rounds) c n three enough word =
      rw (count_if-prime fuel c n three (omega arith) (omega arith)) (
        count_from-primes fuel rounds (suc c) ((if is_prime c then 1 else 0) + n) (omega arith)
          (omega arith) word
        ∙ ap some (omega arith))

-- For every max_prime the loops of cpu_execute_event end, with no more rounds of an inner loop than
-- max_prime, and they count the primes from 3 on below max_prime: the search for a divisor stops at
-- the root and loses none. `sqrt` is taken to be exact enough to compare roots of 32-bit numbers.
pub execute_event-primes :
    (le_sqrt : ℕ → ℕ → Bool) (max_prime : ℕ)
    → IsRoot le_sqrt
    → max_prime < u32_mod
    → execute_event le_sqrt max_prime ≡ some (primes_from (max_prime - 3) 3)
unfolding execute_event count_from primes_from
execute_event-primes le_sqrt max_prime root word = elim (Bool-cases (ltb max_prime 3)) [
  | inl small ↦ few (max_prime - 3) (ground arith)
  | inr large ↦
      count_from-primes le_sqrt root max_prime (max_prime - 3) 3 0 (omega arith) (ground arith) word
      ∙ ap some (omega arith)
]
  where
    few :
        (rounds : ℕ)
        → rounds ≡ 0
        → count_from le_sqrt max_prime rounds 3 0 ≡ some (primes_from rounds 3)
    few zero e = refl
    few (suc rounds) e = absurd (omega arith)

-- ===== src/Compare/Placeholders/Room.antt =====
-- The size of the buffer in replace_placeholders (src/drivers/compare/drv_compare.c), and what is
-- written to it.
use sysbench.Prelude.{
  ℕ, zero, suc, ◌+◌, ◌-◌, ◌*◌, ◌/◌, ◌%◌, ◌^◌, ◌≤◌, ◌<◌, ◌≡◌, refl, true, none, some, List, [], ◌∷◌,
  ◌++◌, arith, ltb, ◌==◌, ◌||◌, length, length-append, take, tally, inl, inr, Bool-cases,
  if◌then◌else◌,
}
use Prim.Native.Nat.{min}
use sysbench.Prelude.Int.{ℤ, pos, negsuc}
use sysbench.Prelude.Text.{Str}
use sysbench.Options.Size.{number_from}
use sysbench.Compare.Placeholders.{
  Param, param_long, param_longlong, param_string, param_other, decimal, print_int, escape,
  reserved, written, fill, final_len, Filled, replace_placeholders,
}

-- The magnitude of a number whose printing fits.
abbrev pub IsBelow : ℕ → ℤ → Type 0
IsBelow bound (pos n) = n < bound
IsBelow bound (negsuc n) = n < bound

-- A parameter whose number is in the range of its C type.
abbrev pub InRange : Param → Type 0
InRange (param_long n) = IsBelow (2 ^ 31) n
InRange (param_longlong n) = IsBelow (2 ^ 63) n
InRange (param_string s) = Unit {0}
InRange param_other = Unit {0}

-- A string parameter has a buffer and a length.
abbrev pub IsGiven : Param → Type 0
IsGiven (param_string none) = ⊥
IsGiven _ = Unit {0}

abbrev pub All : (Param → Type 0) → List Param → Type 0
All P [] = Unit {0}
All P (p ∷ params) = P p × All P params

pub length-decimal :
    (digits : ℕ) (k : ℕ) (n : ℕ) → n < 10 ^ suc k → length (decimal digits n) ≤ suc k
unfolding decimal
length-decimal zero k n h = omega arith
length-decimal (suc digits) zero n h =
    let small : ltb n 10 ≡ true = ground arith in rw small (omega arith)
length-decimal (suc digits) (suc k) n h = elim (Bool-cases (ltb n 10)) [
  | inl small ↦ rw (small, decimal) (omega arith)
  | inr large ↦
      let shorter : n / 10 < 10 ^ suc k = omega arith in
      rw (large, decimal)
        (omega (
          arith,
          length-decimal digits k (n / 10) shorter,
          length-append (decimal digits (n / 10)) ((b'0' + n % 10) ∷ []),
        ))
]

-- The number that digits denote, the last digit first in the call.
number-snoc :
    (acc : ℕ) (ds : Str) (d : ℕ)
    → number_from acc (ds ++ (d ∷ [])) ≡ number_from acc ds * 10 + (d - b'0')
number-snoc acc [] d = refl
number-snoc acc (c ∷ ds) d = number-snoc (acc * 10 + (c - b'0')) ds d

-- As many digits as a number needs print it.
number-decimal : (digits n : ℕ) → n < 10 ^ digits → number_from 0 (decimal digits n) ≡ n
unfolding decimal
number-decimal zero n h = omega arith
number-decimal (suc digits) n h = elim (Bool-cases (ltb n 10)) [
  | inl small ↦ rw (small, decimal) (ground arith)
  | inr large ↦
      let shorter : n / 10 < 10 ^ digits = omega arith in
      rw (large, decimal, number-snoc 0 (decimal digits (n / 10)) (b'0' + n % 10))
        (omega (arith, number-decimal digits (n / 10) shorter))
]

length-print_int :
    (k : ℕ) (bound : ℕ) (n : ℤ)
    → bound < 10 ^ suc k
    → IsBelow bound n
    → length (print_int n) ≤ k + 2
unfolding print_int
length-print_int k bound (pos n) b h = omega (arith, length-decimal 19 k n (omega arith))
length-print_int k bound (negsuc n) b h = omega (arith, length-decimal 19 k (suc n) (omega arith))

length-escape : (s : Str) → length (escape s) ≤ length s * 2
unfolding escape
length-escape [] = omega arith
length-escape (c ∷ s) = elim (Bool-cases (c == b'\'' || c == b'\\')) [
  | inl special ↦ rw (special, escape) (omega (arith, length-escape s))
  | inr plain ↦ rw (plain, escape) (omega (arith, length-escape s))
]

-- A parameter's value fits in what is reserved for it and the byte of its '?'.
length-written : (p : Param) → InRange p → IsGiven p → length (written p) ≤ reserved p + 1
unfolding written reserved
length-written (param_long n) h g = omega (arith, length-print_int 9 (2 ^ 31) n (omega arith) h)
length-written (param_longlong n) h g =
    omega (arith, length-print_int 18 (2 ^ 63) n (omega arith) h)
length-written (param_string (some s)) h g =
    omega (arith, length-append (escape s) (b'\'' ∷ []), length-escape s)
length-written (param_string none) h g = absurd g
length-written param_other h g = omega arith

length-fill :
    (q : Str) (params : List Param)
    → All InRange params
    → All IsGiven params
    → length (fill q params) ≤ length q + tally reserved params
unfolding fill
length-fill [] params h g = omega arith
length-fill (c ∷ s) [] h g = omega (arith, length-fill s [] tt tt)
length-fill (c ∷ s) (p ∷ params) h g = elim (Bool-cases (c == b'?')) [
  | inl mark ↦
      rw (mark, fill)
        (omega (
          arith,
          length-append (written p) (fill s params),
          length-written p h.0 g.0,
          length-fill s params h.1 g.1,
        ))
  | inr plain ↦ rw (plain, fill) (omega (arith, length-fill s (p ∷ params) h g))
]

-- The '?' of a text.
abbrev pub marks : Str → ℕ
marks [] = 0
marks (c ∷ s) = let rest = marks s in if c == b'?' then suc rest else rest

-- A string parameter without a buffer or a length.
abbrev pub IsMissing : Param → Type 0
IsMissing (param_string none) = Unit {0}
IsMissing _ = ⊥

missing : (p : Param) → IsMissing p → p ≡ param_string none
missing (param_string none) m = refl
missing (param_string (some s)) m = absurd m
missing (param_long n) m = absurd m
missing (param_longlong n) m = absurd m
missing param_other m = absurd m

tally-missing : (params : List Param) → All IsMissing params → tally reserved params ≡ 0
unfolding reserved
tally-missing [] m = refl
tally-missing (p ∷ params) m = rw (missing p m.0) (omega (arith, tally-missing params m.1))

length-fill_missing :
    (q : Str) (params : List Param)
    → All IsMissing params
    → length (fill q params) ≡ length q + min (marks q) (length params)
unfolding fill written
length-fill_missing [] params m = omega arith
length-fill_missing (c ∷ s) [] m = omega (arith, length-fill_missing s [] tt)
length-fill_missing (c ∷ s) (p ∷ params) m = elim (Bool-cases (c == b'?')) [
  | inl mark ↦ rw (mark, fill, missing p m.0) (omega (arith, length-fill_missing s params m.1))
  | inr plain ↦ rw (plain, fill) (omega (arith, length-fill_missing s (p ∷ params) m))
]

module _ (q : Str) (params : List Param) (count : ℕ) where
  -- When every number among the parameters is in the range of its C type and every string has a
  -- buffer and a length, replace_placeholders, once its buffer is allocated, returns a text that
  -- fits in the buffer with its NUL.
  pub replace_placeholders-fits :
      All InRange (take count params)
      → All IsGiven (take count params)
      → (f : Filled) × (replace_placeholders true (some q) (some params) (pos count) ≡ some f)
        × (length f.text + 1 ≤ f.size)
  unfolding replace_placeholders final_len
  replace_placeholders-fits h g = (_, refl, omega (arith, length-fill q (take count params) h g))

  -- When all the parameters are strings without a buffer or a length, replace_placeholders, once
  -- its buffer is allocated, writes, with the NUL, one byte past the end of the buffer for each '?'
  -- that it replaces.
  pub replace_placeholders-overrun :
      All IsMissing (take count params)
      → (f : Filled) × (replace_placeholders true (some q) (some params) (pos count) ≡ some f)
        × (length f.text + 1 ≡ f.size + min (marks q) (length (take count params)))
  unfolding replace_placeholders final_len
  replace_placeholders-overrun m = (
    _,
    refl,
    omega (arith, length-fill_missing q (take count params) m, tally-missing (take count params) m),
  )

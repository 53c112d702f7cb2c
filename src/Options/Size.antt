-- ===== src/Options/Size.antt =====
-- src/sb_options.c: the readings of an option's first value as a size and as an int.
use Prim.Native.Nat.{min}
use sysbench.Prelude.{
  ℕ, zero, suc, ◌+◌, ◌-◌, ◌*◌, ◌^◌, ◌≡◌, refl, Bool, true, false, ◌&&◌, Option, none, some, List,
  [], ◌∷◌, arith, u64, if◌then◌else◌, ◌==◌, leb, ltb, inl, inr, Bool-cases,
}
use sysbench.Prelude.Int.{ℤ, pos, negsuc, ◌≤ℤ◌}
use sysbench.Prelude.Text.{Str, is_digit, is_space}

-- The loop over the characters: the number, and the modifier that stops it (`rc` says whether a
-- digit was read).
pub scan_size : Str → ℕ → Bool → ℕ × Option ℕ
scan_size [] res rc = (res, none)
scan_size (c ∷ s) res rc =
    let rest = scan_size s (u64 (res * 10 + c - b'0')) true in
    if is_digit c then rest else (res, if rc then some c else none)

abbrev to_upper : ℕ → ℕ
to_upper c = if leb b'a' c && leb c b'z' then c - 32 else c

-- The position in sizemods, "KMGT".
pub modifier : ℕ → Option ℕ
modifier c =
    let u = to_upper c in
    if u == b'K'
    then some 0
    else if u == b'M'
    then some 1
    else if u == b'G'
    then some 2
    else if u == b'T'
    then some 3
    else none

-- for (i = 0; i <= n; i++) res *= 1024, with `n + 1` rounds left
pub times_1024 : ℕ → ℕ → ℕ
times_1024 zero res = res
times_1024 (suc n) res = times_1024 n (u64 (res * 1024))

apply_modifier : ℕ → Option ℕ → ℕ
apply_modifier res none = 0
apply_modifier res (some n) = times_1024 (suc n) res

finish_size : ℕ × Option ℕ → ℕ
unfolding apply_modifier
finish_size (res, none) = res
finish_size (res, some c) = apply_modifier res (modifier c)

-- sb_opt_to_size on the list of values
unfoldable pub to_size : List Str → ℕ
unfolding finish_size scan_size modifier times_1024
to_size [] = 0
to_size (v ∷ values) = finish_size (scan_size v 0 false)

abbrev pub AllDigits : Str → Type 0
AllDigits [] = Unit {0}
AllDigits (c ∷ s) = (is_digit c ≡ true) × AllDigits s

-- The number that a string of digits denotes, after the digits of `acc`.
abbrev pub number_from : ℕ → Str → ℕ
number_from acc [] = acc
number_from acc (c ∷ s) = number_from (acc * 10 + (c - b'0')) s

abbrev pub number : Str → ℕ
number = number_from 0

-- What a suffix multiplies by: nothing, a power of 1024, or zero if it is unknown.
abbrev pub factor : Str → ℕ
factor [] = 1
factor (c ∷ s) = elim (modifier c) [ some n ↦ 1024 ^ suc n | none ↦ 0 ]

-- A text that does not begin with a digit.
abbrev pub NoDigit : Str → Type 0
NoDigit [] = Unit {0}
NoDigit (c ∷ s) = is_digit c ≡ false

-- A value that does not begin with a digit reads as 0, and so does an option with no value.
pub to_size-NoDigit :
    (t : Str) (values : List Str) → NoDigit t → (to_size (t ∷ values) ≡ 0) × (to_size [] ≡ 0)
unfolding to_size
to_size-NoDigit [] values h = (refl, refl)
to_size-NoDigit (c ∷ t) values h = (rw h, refl)

-- strtol, base 10: blanks, a sign, digits, with the value kept within a 64-bit long; what is left
-- of the text. With no digit it reads nothing.
skip_space : Str → Str
skip_space [] = []
skip_space (c ∷ s) = if is_space c then skip_space s else c ∷ s

read_digits : ℕ → Str → ℕ × Str
read_digits acc [] = (acc, [])
read_digits acc (c ∷ s) =
    let rest = read_digits (acc * 10 + (c - b'0')) s in if is_digit c then rest else (acc, c ∷ s)

starts_with_digit : Str → Bool
starts_with_digit [] = false
starts_with_digit (c ∷ s) = is_digit c

clamp_long : Bool → ℕ → ℤ
clamp_long false n = pos (min n (2 ^ 63 - 1))
clamp_long true zero = pos 0
clamp_long true (suc n) = negsuc (min n (2 ^ 63 - 1))

read_number : Bool → Str → Str → ℤ × Str
unfolding read_digits starts_with_digit clamp_long
read_number negative s t =
    let (n, rest) = read_digits 0 t in
    if starts_with_digit t then (clamp_long negative n, rest) else (pos 0, s)

read_sign : Str → Str → ℤ × Str
unfolding read_number
read_sign s [] = read_number false s []
read_sign s (c ∷ t) =
    if c == b'-'
    then read_number true s t
    else if c == b'+'
    then read_number false s t
    else read_number false s (c ∷ t)

unfoldable pub strtol : Str → ℤ × Str
unfolding read_sign skip_space
strtol s = read_sign s (skip_space s)

abbrev is_nil : Str → Bool
is_nil [] = true
is_nil (c ∷ s) = false

-- res > INT_MAX || res < INT_MIN, negated
fits_int : ℤ → Bool
fits_int (pos n) = ltb n (2 ^ 31)
fits_int (negsuc n) = ltb n (2 ^ 31)

-- sb_opt_to_int on the list of values; `none` is exit(EXIT_FAILURE).
unfoldable pub to_int : List Str → Option ℤ
unfolding fits_int strtol
to_int [] = some (pos 0)
to_int (v ∷ values) =
    let (res, rest) = strtol v in if is_nil rest && fits_int res then some res else none

read_digits_lem :
    (acc : ℕ) (ds : Str) → AllDigits ds → read_digits acc ds ≡ (number_from acc ds, [])
unfolding read_digits
read_digits_lem acc [] h = refl
read_digits_lem acc (c ∷ ds) h = rw h.0 (read_digits_lem (acc * 10 + (c - b'0')) ds h.1)

strtol-digits :
    (d : ℕ) (ds : Str)
    → AllDigits (d ∷ ds)
    → strtol (d ∷ ds) ≡ (pos (min (number (d ∷ ds)) (2 ^ 63 - 1)), [])
unfolding strtol
strtol-digits d ds h =
    let blank : is_space d ≡ false = ground arith in
    let minus : (d == b'-') ≡ false = ground arith in
    let plus : (d == b'+') ≡ false = ground arith in
    rw (blank, minus, plus, h.0, read_digits_lem (0 * 10 + (d - b'0')) ds h.1)

fits_int-range : (i : ℤ) → fits_int i ≡ true → (negsuc (2 ^ 31 - 1) ≤ℤ i) × (i ≤ℤ pos (2 ^ 31 - 1))
unfolding fits_int
fits_int-range (pos n) h = ground arith
fits_int-range (negsuc n) h = ground arith

-- Whatever the text, an int that is returned is in the range of int.
pub to_int-range :
    (values : List Str) {i : ℤ}
    → to_int values ≡ some i
    → (negsuc (2 ^ 31 - 1) ≤ℤ i) × (i ≤ℤ pos (2 ^ 31 - 1))
unfolding to_int
to_int-range [] {i} h = let e : pos 0 ≡ i = cc in rw (← e) (omega arith)
to_int-range (v ∷ values) {i} h = elim (Bool-cases (is_nil (strtol v).1 && fits_int (strtol v).0)) [
  | inl good ↦
      let e : (strtol v).0 ≡ i = cc (rw good at h) in rw (← e) (fits_int-range _ (ground arith))
  | inr bad ↦ cc (rw bad at h)
]

-- A string of digits is read as its number if that fits an int; otherwise the program exits.
pub to_int-number :
    (d : ℕ) (ds : Str) (values : List Str)
    → AllDigits (d ∷ ds)
    → to_int ((d ∷ ds) ∷ values)
      ≡ (if ltb (number (d ∷ ds)) (2 ^ 31) then some (pos (number (d ∷ ds))) else none)
unfolding to_int fits_int
to_int-number d ds values h = rw (strtol-digits d ds h) (ground arith)

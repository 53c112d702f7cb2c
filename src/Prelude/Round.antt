-- ===== src/Prelude/Round.antt =====
-- The rounding of the C type double (IEEE 754, to nearest, ties to even) on what is a whole number
-- of a fixed small unit, neither above nor below the range of the exponents.
use Prim.Native.Nat.{ℕ, zero, suc, ◌+◌, ◌-◌, ◌*◌, ◌/◌, ◌%◌, ◌^◌, ◌≤◌, ◌<◌}
use mathlib.Core.Path.{◌≡◌, ◌∙◌, sym, ap}
use mathlib.Core.Logic.{◌⊎◌, inl, inr}
use mathlib.Core.Bool.{Bool, true, ◌&&◌, ◌||◌}
use native.Mathlib.Omega.{arith}
use native.Mathlib.Nat.{
  div-add-mod', mul_assoc, mul-le-mul_right, le-div_iff_mul-le, one-le-pow, pow-suc, pow-succ',
}
use sysbench.Prelude.Tests.{ltb, ◌==◌, if◌then◌else◌, Bool-cases, if-elim}

-- How many binary digits of `v` do not fit in the 53 of a double, among the given number.
unfoldable pub excess : ℕ → ℕ → ℕ
excess zero v = 0
excess (suc k) v = let rest = excess k (v / 2) in if ltb v (2 ^ 53) then 0 else suc rest

-- The rest of `v` is above half a unit, or half a unit with an odd quotient.
rounds_up : ℕ → ℕ → Bool
rounds_up unit v = ltb unit (2 * (v % unit)) || (2 * (v % unit) == unit && (v / unit) % 2 == 1)

-- The multiple of `unit` nearest to `v`, of two the even one.
unfoldable pub nearest : ℕ → ℕ → ℕ
unfolding rounds_up
nearest unit v = if rounds_up unit v then suc (v / unit) * unit else v / unit * unit

-- The double nearest to `v`, for `v` below 2^105: no more than 52 digits are dropped.
unfoldable pub round : ℕ → ℕ
unfolding excess nearest
round v = nearest (2 ^ excess 52 v) v

excess-le : (k v : ℕ) → excess k v ≤ k
unfolding excess
excess-le zero v = omega arith
excess-le (suc k) v =
    if-elim (λ e. e ≤ suc k) (ltb v (2 ^ 53)) (λ h. omega arith)
      (λ h. omega (arith, excess-le k (v / 2)))

-- Rounding to a unit does not cross a multiple of the unit.
nearest-ge : (unit m v : ℕ) → 0 < unit → m * unit ≤ v → m * unit ≤ nearest unit v
unfolding nearest
nearest-ge unit m v positive h =
    let below : m ≤ v / unit = (le-div_iff_mul-le positive).1 h in
    if-elim (λ e. m * unit ≤ e) (rounds_up unit v)
      (λ up. mul-le-mul_right {n = suc (v / unit)} unit (omega (arith, below)))
      (λ down. mul-le-mul_right unit below)

rounds_up-rest : (unit v : ℕ) → 0 < unit → rounds_up unit v ≡ true → 0 < v % unit
unfolding rounds_up
rounds_up-rest unit v positive up = ground arith

nearest-le : (unit m v : ℕ) → 0 < unit → v ≤ m * unit → nearest unit v ≤ m * unit
unfolding nearest
nearest-le unit m v positive h =
    let parts = div-add-mod' v unit in
    if-elim (λ e. e ≤ m * unit) (rounds_up unit v)
      (λ up. mul-le-mul_right {n = m} unit (quotient-lt (rounds_up-rest unit v positive up)))
      (λ down. omega (arith, parts))
  where
    quotient-lt : 0 < v % unit → v / unit < m
    quotient-lt rest =
        let t : (v / unit < m) ⊎ (m ≤ v / unit) = omega arith in
        elim t [
          | inl below ↦ below
          | inr above ↦
              let wide : m * unit ≤ v / unit * unit = mul-le-mul_right unit above in
              absurd (omega (arith, div-add-mod' v unit))
        ]

pow-split : (d e : ℕ) → 2 ^ (d + e) ≡ 2 ^ d * 2 ^ e
pow-split d zero = grind arith
pow-split d (suc e) =
    let sum : d + suc e ≡ suc (d + e) = omega arith in
    rw (sum, pow-suc 2 (d + e), pow-suc 2 e)
      (ap (λ n. n * 2) (pow-split d e) ∙ mul_assoc (2 ^ d) (2 ^ e) 2)

-- A whole number of 2^52 units is a multiple of the unit that `round` rounds to.
whole : (v k : ℕ) → k * 2 ^ 52 ≡ (k * 2 ^ (52 - excess 52 v)) * 2 ^ excess 52 v
whole v k =
    let e = excess 52 v in
    let sum : 52 - e + e ≡ 52 = omega (arith, excess-le 52 v) in
    ap (λ n. k * 2 ^ n) (sym sum)
    ∙ ap (λ n. k * n) (pow-split (52 - e) e)
    ∙ sym (mul_assoc k (2 ^ (52 - e)) (2 ^ e))

-- Rounding keeps a number on its side of every whole number of 2^52 units.
pub round-le : (k v : ℕ) → v ≤ k * 2 ^ 52 → round v ≤ k * 2 ^ 52
unfolding round
round-le k v h = rw (whole v k) (
    nearest-le (2 ^ excess 52 v) (k * 2 ^ (52 - excess 52 v)) v
      (one-le-pow (excess 52 v) 2 (omega arith)) (rw (whole v k) at h))

pub round-ge : (k v : ℕ) → k * 2 ^ 52 ≤ v → k * 2 ^ 52 ≤ round v
unfolding round
round-ge k v h = rw (whole v k) (
    nearest-ge (2 ^ excess 52 v) (k * 2 ^ (52 - excess 52 v)) v
      (one-le-pow (excess 52 v) 2 (omega arith)) (rw (whole v k) at h))

-- A number that does not fit in 53 digits has at least 53 of them left.
excess-ge : (k v : ℕ) → 0 < excess k v → 2 ^ 52 * 2 ^ excess k v ≤ v
unfolding excess
excess-ge zero v h = absurd (omega arith)
excess-ge (suc k) v h = elim (Bool-cases (ltb v (2 ^ 53))) [
  | inl fits ↦ absurd (omega (arith, rw fits at h))
  | inr long ↦ rw long (step (excess k (v / 2)) (excess-ge k (v / 2)) (ground arith))
]
  where
    step : (e : ℕ) → (0 < e → 2 ^ 52 * 2 ^ e ≤ v / 2) → 2 ^ 53 ≤ v → 2 ^ 52 * 2 ^ suc e ≤ v
    step zero h long = omega arith
    step (suc e) h long = let half = h (omega arith) in omega (arith, pow-succ' 2 (suc e), half)

suc_times : (m u : ℕ) → suc m * u ≡ u + m * u
suc_times m u = grind arith

-- A number that is a unit below a multiple stays so.
nearest-below : (unit m v : ℕ) → 0 < unit → v + unit ≤ m * unit → nearest unit v + unit ≤ m * unit
nearest-below unit zero v positive h = absurd (omega arith)
nearest-below unit (suc m) v positive h =
    let e = suc_times m unit in omega (arith, e, nearest-le unit m v positive (omega (arith, e)))

product_below : (x n : ℕ) → x < 2 ^ 52 → x * n + n ≤ 2 ^ 52 * n
product_below x n h =
    let le : suc x * n ≤ 2 ^ 52 * n = mul-le-mul_right n h in omega (arith, suc_times x n)

-- x / 2^52 of a whole number, rounded, stays below that number.
pub round-lt : (x n : ℕ) → x < 2 ^ 52 → 0 < n → round (x * n) < n * 2 ^ 52
unfolding round
round-lt x n h some = elim (zero_or (excess 52 (x * n))) [
  | inl exact ↦
      rw exact (
        omega
          (arith, product_below x n h, nearest-le 1 (x * n) (x * n) (omega arith) (omega arith)))
  | inr long ↦
      let unit = 2 ^ excess 52 (x * n) in
      let m = n * 2 ^ (52 - excess 52 (x * n)) in
      let positive : 0 < unit = one-le-pow (excess 52 (x * n)) 2 (omega arith) in
      let kept = excess-ge 52 (x * n) long in
      let all : n * 2 ^ 52 ≡ m * unit = whole (x * n) n in
      let low : x * n + unit ≤ m * unit = omega (arith, kept, all, product_below x n h) in
      omega (arith, all, positive, nearest-below unit m (x * n) positive low)
]
  where
    zero_or : (e : ℕ) → (e ≡ 0) ⊎ (0 < e)
    zero_or e = omega arith

excess-small : (k v : ℕ) → v < 2 ^ 53 → excess k v ≡ 0
unfolding excess
excess-small zero v h = omega arith
excess-small (suc k) v h = ground arith

nearest-one : (v : ℕ) → nearest 1 v ≡ v
unfolding nearest rounds_up
nearest-one v = ground arith

-- A number of at most 53 digits is a double.
pub round-exact : (v : ℕ) → v < 2 ^ 53 → round v ≡ v
unfolding round
round-exact v h = rw (excess-small 52 v h) (nearest-one v)

-- ===== src/Timer/Samples.antt =====
-- What a timer of src/sb_timer.c says of the events it has measured.
use sysbench.Prelude.{
  ℕ, suc, ◌+◌, ◌*◌, ◌/◌, ◌≤◌, ◌<◌, ◌≡◌, refl, false, List, [], ◌∷◌, ◌++◌, arith, u64, u64_mod,
  length, length-append, sum, ltb, ◌==◌, if◌then◌else◌,
}
use native.Mathlib.Nat.{le-div_iff_mul-le, div-le_of_le-mul}
use sysbench.Timer.{
  Timespec, Timer, uint64_max, init, reset, start, stop, timer_avg, timer_min, timer_max, merge,
}

abbrev pub smallest : List ℕ → ℕ
smallest [] = uint64_max
smallest (x ∷ xs) = if ltb x (smallest xs) then x else smallest xs

abbrev pub largest : List ℕ → ℕ
largest [] = 0
largest (x ∷ xs) = if ltb (largest xs) x then x else largest xs

abbrev pub AllWords : List ℕ → Type 0
AllWords [] = Unit {0}
AllWords (x ∷ xs) = (x < u64_mod) × AllWords xs

-- The timer stands for these measured times.
pub record Measures (t : Timer) (samples : List ℕ) : Type 0 where
  pub count : t.events ≡ u64 (length samples)
  pub total : t.sum_time ≡ u64 (sum samples)
  pub least : t.min_time ≡ smallest samples
  pub most : t.max_time ≡ largest samples
  pub words : AllWords samples

sum-append : (xs ys : List ℕ) → sum (xs ++ ys) ≡ sum xs + sum ys
sum-append [] ys = omega arith
sum-append (x ∷ xs) ys = omega (arith, sum-append xs ys)

smallest-word : (xs : List ℕ) → AllWords xs → smallest xs ≤ uint64_max
smallest-word [] h = omega arith
smallest-word (x ∷ xs) h = ground (arith, smallest-word xs h.1)

smallest-append :
    (xs ys : List ℕ)
    → AllWords ys
    → smallest (xs ++ ys) ≡ (if ltb (smallest xs) (smallest ys) then smallest xs else smallest ys)
smallest-append [] ys h = ground (arith, smallest-word ys h)
smallest-append (x ∷ xs) ys h = ground (arith, smallest-append xs ys h)

largest-append :
    (xs ys : List ℕ)
    → largest (xs ++ ys) ≡ (if ltb (largest ys) (largest xs) then largest xs else largest ys)
largest-append [] ys = ground arith
largest-append (x ∷ xs) ys = ground (arith, largest-append xs ys)

AllWords-append : (xs ys : List ℕ) → AllWords xs → AllWords ys → AllWords (xs ++ ys)
AllWords-append [] ys h k = k
AllWords-append (x ∷ xs) ys h k = (h.0, AllWords-append xs ys h.1 k)

pub reset-Measures : (t : Timer) → Measures (reset t) []
unfolding reset
reset-Measures t = record { count = refl; total = refl; least = refl; most = refl; words = tt }

pub init-Measures : (t : Timer) → Measures (init t) []
unfolding init
init-Measures t = record { count = refl; total = refl; least = refl; most = refl; words = tt }

pub start-Measures :
    (t : Timer) (samples : List ℕ) (now : Timespec)
    → Measures t samples
    → Measures (start now t) samples
unfolding start
start-Measures t samples now m = record {
  count = m.count;
  total = m.total;
  least = m.least;
  most = m.most;
  words = m.words;
}

-- sb_timer_stop adds to the measured times the one that it returns.
pub stop-Measures :
    (t : Timer) (samples : List ℕ) (now : Timespec)
    → Measures t samples
    → Measures (stop now t).0 ((stop now t).1 ∷ samples)
unfolding stop
stop-Measures t samples now m = record {
  count = omega (arith, m.count);
  total = omega (arith, m.total);
  least = ground (arith, m.least);
  most = ground (arith, m.most);
  words = (omega arith, m.words);
}

-- sb_timer_merge stands for the measured times of both timers together.
pub merge-Measures :
    (t u : Timer) (xs ys : List ℕ) → Measures t xs → Measures u ys → Measures (merge t u) (xs ++ ys)
unfolding merge
merge-Measures t u xs ys m n = record {
  count = omega (arith, m.count, n.count, length-append xs ys);
  total = omega (arith, m.total, n.total, sum-append xs ys);
  least = ground (arith, m.least, n.least, smallest-append xs ys n.words);
  most = ground (arith, m.most, n.most, largest-append xs ys);
  words = AllWords-append xs ys m.words n.words;
}

abbrev AllWithin : ℕ → ℕ → List ℕ → Type 0
AllWithin a b [] = Unit {0}
AllWithin a b (x ∷ xs) = (a ≤ x) × (x ≤ b) × AllWithin a b xs

sum-AllWithin :
    (a b : ℕ) (xs : List ℕ) → AllWithin a b xs → (a * length xs ≤ sum xs) × (sum xs ≤ b * length xs)
sum-AllWithin a b [] h = (omega arith, omega arith)
sum-AllWithin a b (x ∷ xs) h =
    let (l, u) = sum-AllWithin a b xs h.2 in
    (omega (arith, l, times_suc a (length xs)), omega (arith, u, times_suc b (length xs)))
  where
    times_suc : (a n : ℕ) → a * suc n ≡ a + a * n
    times_suc a n = grind arith

AllWithin-wider :
    (a b a' b' : ℕ) (xs : List ℕ) → a' ≤ a → b ≤ b' → AllWithin a b xs → AllWithin a' b' xs
AllWithin-wider a b a' b' [] h k w = tt
AllWithin-wider a b a' b' (x ∷ xs) h k w =
    (omega arith, omega arith, AllWithin-wider a b a' b' xs h k w.2)

extremes : (xs : List ℕ) → AllWithin (smallest xs) (largest xs) xs
extremes [] = tt
extremes (x ∷ xs) = (
  ground arith,
  ground arith,
  AllWithin-wider (smallest xs) (largest xs) _ _ xs (ground arith) (ground arith) (extremes xs),
)

-- When the measured times and their number fit in a uint64_t, sb_timer_avg is the integer average
-- of the measured times, which lies between sb_timer_min and sb_timer_max.
pub timer_min-avg-max :
    (t : Timer) (samples : List ℕ)
    → Measures t samples
    → sum samples < u64_mod
    → length samples < u64_mod
    → 0 < length samples
    → (timer_avg t ≡ sum samples / length samples)
      × (timer_min t ≤ timer_avg t)
      × (timer_avg t ≤ timer_max t)
unfolding timer_avg timer_min timer_max
timer_min-avg-max t samples m fit short some_event =
    let n : t.events ≡ length samples = omega (arith, m.count) in
    let total : t.sum_time ≡ sum samples = omega (arith, m.total) in
    let nonzero : (t.events == 0) ≡ false = ground (arith, n) in
    let (l, u) = sum-AllWithin _ _ samples (extremes samples) in
    let above : t.min_time ≤ t.sum_time / t.events =
      rw (m.least, n, total) ((le-div_iff_mul-le some_event).1 l) in
    let below : t.sum_time / t.events ≤ t.max_time =
      rw (m.most, n, total) (div-le_of_le-mul (length samples) (omega (arith, u))) in
    rw nonzero (rw (n, total) refl, above, below)

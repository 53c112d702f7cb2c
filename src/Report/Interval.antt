-- ===== src/Report/Interval.antt =====
-- src/sysbench.c: when the reporting thread reports.
use sysbench.Prelude.{
  ℕ, zero, suc, ◌+◌, ◌-◌, ◌*◌, ◌≤◌, ◌<◌, ◌≡◌, refl, some, List, [], ◌∷◌, leb, u64, u64_mod, sub64,
  inl, inr, Bool-cases, arith, ◌⊎◌, length,
}
use sysbench.Report.{next_report, report_loop, report_thread}

-- The next report after `curr`: a number of intervals after the previous one, and the first such
-- time after `curr` unless it is one interval after the previous one.
pub record IsNext (prev interval curr next : ℕ) : Type 0 where
  pub rounds : ℕ
  pub grid : next ≡ prev + suc rounds * interval
  pub later : curr < next
  pub soon : (rounds ≡ 0) ⊎ (next ≤ curr + interval)

-- The loop ends within the fuel, with the next report.
abbrev pub Finds : ℕ → ℕ → ℕ → ℕ → Type 0
Finds fuel prev interval curr =
    (next : ℕ) × (next_report fuel prev interval curr ≡ some next) × IsNext prev interval curr next

-- One interval after the previous report.
at_once :
    (prev interval : ℕ) {next r : ℕ}
    → r ≡ 0
    → next ≡ prev + suc r * interval
    → next ≡ prev + interval
at_once prev interval {next} first grid =
    let e : next ≡ prev + 1 * interval = rw first at grid in omega arith

-- One round: the loop ends, or goes on from the next point of the grid.
next_report-round :
    (fuel prev interval curr : ℕ)
    → prev + interval < u64_mod
    → (prev + interval ≤ curr → Finds fuel (prev + interval) interval curr)
    → Finds (suc fuel) prev interval curr
unfolding next_report
next_report-round fuel prev interval curr fit go_on =
    let next : u64 (prev + interval) ≡ prev + interval = omega arith in
    elim (Bool-cases (leb (prev + interval) curr)) [
      | inr stop ↦
          rw (next, stop)
            (
              prev + interval,
              refl,
              record { rounds = 0; grid = omega arith; later = ground arith; soon = inl refl },
            )
      | inl again ↦
          let (t, found, n) = go_on (ground arith) in
          rw (next, again) (t, found, further (ground arith) n)
    ]
  where
    further :
        {t : ℕ}
        → prev + interval ≤ curr
        → IsNext (prev + interval) interval curr t
        → IsNext prev interval curr t
    further reached n = record {
      rounds = suc n.rounds;
      grid = rw n.grid (grind arith);
      later = n.later;
      soon = elim n.soon [
        | inl first ↦ inr (omega (arith, at_once (prev + interval) interval first n.grid))
        | inr h ↦ inr h
      ];
    }

next_report-IsNext :
    (f prev interval curr : ℕ)
    → 0 < interval
    → curr < prev + suc f
    → prev + interval < u64_mod
    → curr + interval < u64_mod
    → Finds (suc f) prev interval curr
next_report-IsNext zero prev interval curr some_time enough fit fit' =
    next_report-round zero prev interval curr fit (λ reached. absurd (omega arith))
next_report-IsNext (suc f) prev interval curr some_time enough fit fit' =
    next_report-round (suc f) prev interval curr fit (λ reached.
      next_report-IsNext f (prev + interval) interval curr some_time (omega arith) (omega arith)
        fit')

-- Each pause, from a reading on, ends a number of intervals after the start.
abbrev pub OnGrid : ℕ → ℕ → List ℕ → List ℕ → Type 0
OnGrid start interval [] [] = Unit {0}
OnGrid start interval [] (pause ∷ pauses) = ⊥
OnGrid start interval (curr ∷ readings) [] = ⊥
OnGrid start interval (curr ∷ readings) (pause ∷ pauses) =
    (0 < pause)
    × ((k : ℕ) × (curr + pause ≡ start + k * interval))
    × OnGrid start interval readings pauses

abbrev pub AllUpTo : ℕ → List ℕ → Type 0
AllUpTo bound [] = Unit {0}
AllUpTo bound (x ∷ xs) = (x ≤ bound) × AllUpTo bound xs

AllUpTo-wider : (a b : ℕ) (xs : List ℕ) → a ≤ b → AllUpTo a xs → AllUpTo b xs
AllUpTo-wider a b [] h u = tt
AllUpTo-wider a b (x ∷ xs) h u = (omega arith, AllUpTo-wider a b xs h u.1)

suc_times : (n i : ℕ) → suc n * i ≡ i + n * i
suc_times n i = grind arith

grid_step :
    (start i k r : ℕ) {prev next : ℕ}
    → prev ≡ start + k * i
    → next ≡ prev + suc r * i
    → next ≡ start + (k + suc r) * i
grid_step start i k r e f = rw (f, e) (grind arith)

report_loop-OnGrid :
    (start interval pause prev k bound : ℕ) (readings : List ℕ)
    → 0 < interval
    → prev ≡ start + k * interval
    → prev ≤ bound
    → AllUpTo bound readings
    → bound + length readings * interval < u64_mod
    → (pauses : List ℕ) × (report_loop interval pause prev readings ≡ some (pause ∷ pauses))
      × OnGrid start interval readings pauses
unfolding report_loop
report_loop-OnGrid start interval pause prev k bound [] some_time grid low all fit = ([], refl, tt)
report_loop-OnGrid start interval pause prev k bound (curr ∷ readings) some_time grid low all fit =
    let fit' : bound + interval + length readings * interval < u64_mod =
      omega (arith, suc_times (length readings) interval) in
    let (next, found, n) =
      next_report-IsNext curr prev interval curr some_time (omega arith) (omega arith)
        (omega arith) in
    let grid' : next ≡ start + (k + suc n.rounds) * interval =
      grid_step start interval k n.rounds grid n.grid in
    let low' : next ≤ bound + interval = elim n.soon [
      | inl first ↦ omega (arith, at_once prev interval first n.grid)
      | inr h ↦ omega arith
    ] in
    let pause' : sub64 next curr ≡ next - curr = omega (arith, n.later) in
    let (pauses, rest, on) =
      report_loop-OnGrid start interval (sub64 next curr) next (k + suc n.rounds) (bound + interval)
        readings some_time grid' low'
        (AllUpTo-wider bound (bound + interval) readings (omega arith) all.1) fit' in
    rw (found, rest)
      (
        sub64 next curr ∷ pauses,
        refl,
        (
          omega (arith, n.later, pause'),
          (k + suc n.rounds, omega (arith, n.later, pause', grid')),
          on,
        ),
      )

-- Whatever the timer reads after the reports, as long as the readings with as many intervals stay
-- below 2^64: the inner loop of report_thread_proc always ends, and after every report the pause is
-- above 0 and ends a whole number of intervals after the start.
pub report_thread-OnGrid :
    (interval start bound : ℕ) (readings : List ℕ)
    → 0 < interval
    → start + interval ≤ bound
    → AllUpTo bound readings
    → bound + length readings * interval < u64_mod
    → (pauses : List ℕ) × (report_thread interval start readings ≡ some (interval ∷ pauses))
      × OnGrid (start + interval) interval readings pauses
unfolding report_thread
report_thread-OnGrid interval start bound readings some_time low all fit =
    let first : u64 (start + interval) ≡ start + interval = omega arith in
    rw first (
      report_loop-OnGrid (start + interval) interval interval (start + interval) 0 bound readings
        some_time (omega arith) low all fit)

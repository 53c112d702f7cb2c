-- ===== src/Report/Cumulative.antt =====
-- src/sysbench.c: what the cumulative report says of the events of all threads.
use sysbench.Prelude.{
  ℕ, suc, ◌/◌, ◌<◌, ◌≡◌, ◌≢◌, refl, ap, true, false, List, [], ◌∷◌, ◌++◌, ◌==◌, length, sum, arith,
  u64_mod,
}
use sysbench.Timer.{
  Timespec, Timer, init, start, stop, running, merge, checkpoint, timer_sum, timer_min, timer_max,
}
use sysbench.Timer.Samples.{
  Measures, reset-Measures, merge-Measures, smallest, largest, timer_min-avg-max, init-Measures,
}
use sysbench.Timer.Clock.{IsReading, ns, running-stop}
use sysbench.Report.{
  checkpoint_all, merge_all, report_cumulative, Latency, latency_of, stop_running, fairness,
}

-- Each thread's timer measures its list of times.
pub data MeasuresAll : List Timer → List (List ℕ) → Type 0 where
  nil : MeasuresAll [] []
  cons :
      {t : Timer} {samples : List ℕ} {timers : List Timer} {rest : List (List ℕ)}
      → Measures t samples
      → MeasuresAll timers rest
      → MeasuresAll (t ∷ timers) (samples ∷ rest)

-- The times of all threads, after those of `samples`.
abbrev pub join : List ℕ → List (List ℕ) → List ℕ
join samples [] = samples
join samples (xs ∷ rest) = join (samples ++ xs) rest

-- As many empty lists.
abbrev pub none_left : List (List ℕ) → List (List ℕ)
none_left [] = []
none_left (xs ∷ rest) = [] ∷ none_left rest

merge_all-Measures :
    {timers : List Timer} {rest : List (List ℕ)} (t : Timer) (samples : List ℕ)
    → MeasuresAll timers rest
    → Measures t samples
    → Measures (merge_all t timers) (join samples rest)
unfolding merge_all
merge_all-Measures t samples MeasuresAll.nil m = m
merge_all-Measures t samples (MeasuresAll.cons {t = u} {samples = xs} h all) m =
    merge_all-Measures (merge t u) (samples ++ xs) all (merge-Measures t u samples xs m h)

checkpoint_all-MeasuresAll :
    {timers : List Timer} {all : List (List ℕ)}
    → MeasuresAll timers all
    → MeasuresAll (checkpoint_all timers).0 (none_left all) × ((checkpoint_all timers).1 ≡ timers)
unfolding checkpoint_all checkpoint
checkpoint_all-MeasuresAll MeasuresAll.nil = (MeasuresAll.nil, refl)
checkpoint_all-MeasuresAll (MeasuresAll.cons {t} h all) =
    let (left, same) = checkpoint_all-MeasuresAll all in
    (MeasuresAll.cons (reset-Measures t) left, ap (◌∷◌ t) same)

-- The latencies of a list of times: those of a report.
pub record Reports (l : Latency) (samples : List ℕ) : Type 0 where
  pub sum_time : l.latency_sum ≡ sum samples
  pub average : l.latency_avg ≡ sum samples / length samples
  pub least : l.latency_min ≡ smallest samples
  pub most : l.latency_max ≡ largest samples

latency_of-Reports :
    (t : Timer) (samples : List ℕ)
    → Measures t samples
    → sum samples < u64_mod
    → length samples < u64_mod
    → 0 < length samples
    → Reports (latency_of t) samples
unfolding latency_of timer_sum timer_min timer_max
latency_of-Reports t samples m fit short some_event =
    let nonzero : (t.events == 0) ≡ false = ground (arith, m.count) in
    record {
      sum_time = omega (arith, m.total);
      average = (timer_min-avg-max t samples m fit short some_event).0;
      least = rw nonzero m.least;
      most = m.most;
    }

-- When the timers of the threads measure lists of times which together are not empty and sum up
-- below 2^64: report_cumulative leaves in the copies the timers as they were and in the timers
-- nothing measured, and reports the sum, the integer average, the least and the greatest of the
-- times of all threads.
pub report_cumulative-Reports :
    (raw : Timer) (timers : List Timer) (all : List (List ℕ))
    → MeasuresAll timers all
    → sum (join [] all) < u64_mod
    → length (join [] all) < u64_mod
    → 0 < length (join [] all)
    → let (timers', copies, latency) = report_cumulative raw timers in
      MeasuresAll timers' (none_left all) × (copies ≡ timers) × Reports latency (join [] all)
unfolding report_cumulative latency_of
report_cumulative-Reports raw timers all m fit short some_event =
    let (left, same) = checkpoint_all-MeasuresAll m in
    (
      left,
      same,
      rw same (
          latency_of-Reports (merge_all (init raw) timers) (join [] all)
            (merge_all-Measures (init raw) [] m (init-Measures raw)) fit short some_event),
    )

-- A timer whose last call was sb_timer_stop, at another time than the sb_timer_start before it.
pub record Finished (t : Timer) : Type 0 where
  pub before : Timer
  pub started : Timespec
  pub stopped : Timespec
  pub reading : IsReading started
  pub reading' : IsReading stopped
  pub differ : ns started ≢ ns stopped
  pub is_stopped : t ≡ (stop stopped (start started before)).0

abbrev pub AllFinished : List Timer → Type 0
AllFinished [] = Unit {0}
AllFinished (t ∷ timers) = Finished t × AllFinished timers

stop_running-Finished :
    (now : ℕ → Timespec) (i : ℕ) (timers : List Timer)
    → AllFinished timers
    → (stop_running now i timers).1 ≡ length timers
unfolding stop_running
stop_running-Finished now i [] h = refl
stop_running-Finished now i (t ∷ timers) h =
    let f = h.0 in
    let runs : running t ≡ true =
      rw f.is_stopped
        ((running-stop f.before f.started f.stopped f.reading f.reading').1 f.differ) in
    rw runs (ap suc (stop_running-Finished now (suc i) timers h.1))

-- On a forced shutdown, with the timer of every thread stopped after its last event, at another
-- time than that event began: no transaction is in progress, yet sb_report_cumulative prints as
-- many unfinished transactions as there are threads.
pub fairness-Finished :
    (now : ℕ → Timespec) (raw : Timer) (copies : List Timer)
    → AllFinished copies
    → (fairness true now raw copies).0 ≡ length copies
unfolding fairness
fairness-Finished now raw copies h = stop_running-Finished now 0 copies h

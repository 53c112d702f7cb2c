-- ===== src/Report/Tests.antt =====
-- Reports at concrete readings and timers.
use sysbench.Prelude.{ℕ, ◌+◌, ◌≡◌, refl, some, List, [], ◌∷◌, arith}
use sysbench.Timer.{Timespec, Timer, init, start, stop}
use sysbench.Timer.Samples.{Measures, init-Measures, stop-Measures, start-Measures}
use sysbench.Report.{report_thread, report_cumulative}
use sysbench.Report.Interval.{OnGrid, report_thread-OnGrid}
use sysbench.Report.Cumulative.{
  MeasuresAll, none_left, join, Reports, report_cumulative-Reports, Finished,
}

abbrev readings : List ℕ
readings = 11 ∷ 47 ∷ 48 ∷ []

-- Two reports are skipped when a report lasts long.
late_report : report_thread 10 1 readings ≡ some (10 ∷ 10 ∷ 4 ∷ 13 ∷ [])
unfolding report_thread
late_report = refl

report_thread-OnGrid_example :
    (pauses : List ℕ) × (report_thread 10 1 readings ≡ some (10 ∷ pauses))
    × OnGrid (1 + 10) 10 readings pauses
report_thread-OnGrid_example =
    report_thread-OnGrid 10 1 48 readings (omega arith) (omega arith)
      (omega arith, (omega arith, (omega arith, tt))) (omega arith)

abbrev at : ℕ → Timespec
at n = record { tv_sec = 0; tv_nsec = n }

abbrev raw : Timer
raw = record {
  time_start = at 0;
  time_end = at 0;
  events = 0;
  queue_time = 0;
  min_time = 0;
  max_time = 0;
  sum_time = 0;
}

abbrev worker : Timer
worker = (stop (at 7) (start (at 3) (init raw))).0

worker-Measures : Measures worker (4 ∷ [])
unfolding init start stop
worker-Measures =
    stop-Measures (start (at 3) (init raw)) [] (at 7)
      (start-Measures (init raw) [] (at 3) (init-Measures raw))

abbrev times : List (List ℕ)
times = (4 ∷ []) ∷ (4 ∷ []) ∷ []

report_cumulative-Reports_example :
    let (timers', copies, latency) = report_cumulative raw (worker ∷ worker ∷ []) in
    MeasuresAll timers' (none_left times)
    × (copies ≡ worker ∷ worker ∷ [])
    × Reports latency (join [] times)
report_cumulative-Reports_example =
    report_cumulative-Reports raw (worker ∷ worker ∷ []) times
      (MeasuresAll.cons worker-Measures (MeasuresAll.cons worker-Measures MeasuresAll.nil))
      (omega arith) (omega arith) (omega arith)

worker-Finished : Finished worker
worker-Finished = record {
  before = init raw;
  started = at 3;
  stopped = at 7;
  reading = (omega arith, omega arith);
  reading' = (omega arith, omega arith);
  differ = λ e. omega (arith, e);
  is_stopped = refl;
}

-- ===== src/Report.antt =====
-- src/sysbench.c: the reporting thread's schedule, and what a cumulative report takes from the
-- timers of the worker threads. The clock's readings are arguments.
pub mod Interval
pub mod Cumulative
mod Tests
use sysbench.Prelude.{
  ℕ, zero, suc, ◌+◌, Bool, true, false, Option, none, some, List, [], ◌∷◌, if◌then◌else◌, leb, u64,
  sub64, ◌>>=◌,
}
use sysbench.Timer.{
  Timespec, Timer, init, reset, merge, running, stop, checkpoint, timer_min, timer_avg, timer_max,
  timer_sum,
}

-- do { next_ns = prev_ns + interval_ns; prev_ns = next_ns; } while (curr_ns >= next_ns): the last
-- next_ns, which is also the new prev_ns. No number is left when the fuel runs out.
unfoldable pub next_report : ℕ → ℕ → ℕ → ℕ → Option ℕ
next_report zero prev_ns interval_ns curr_ns = none
next_report (suc fuel) prev_ns interval_ns curr_ns =
    let next_ns = u64 (prev_ns + interval_ns) in
    let rest = next_report fuel next_ns interval_ns curr_ns in
    if leb next_ns curr_ns then rest else some next_ns

-- The endless loop of report_thread_proc, for as many rounds as there are readings of the timer
-- after a report: the pauses that it makes, the first one before any reading.
unfoldable pub report_loop : ℕ → ℕ → ℕ → List ℕ → Option (List ℕ)
unfolding next_report
report_loop interval_ns pause_ns prev_ns [] = some (pause_ns ∷ [])
report_loop interval_ns pause_ns prev_ns (curr_ns ∷ readings) =
    next_report (suc curr_ns) prev_ns interval_ns curr_ns >>= λ next_ns.
    report_loop interval_ns (sub64 next_ns curr_ns) next_ns readings >>= λ pauses.
    some (pause_ns ∷ pauses)

-- report_thread_proc once it is started, with the reading at its start
unfoldable pub report_thread : ℕ → ℕ → List ℕ → Option (List ℕ)
unfolding report_loop
report_thread interval_ns start_ns readings =
    report_loop interval_ns interval_ns (u64 (start_ns + interval_ns)) readings

-- The loop of checkpoint: timers and timers_copy.
unfoldable pub checkpoint_all : List Timer → List Timer × List Timer
checkpoint_all [] = ([], [])
checkpoint_all (t ∷ timers) =
    let (timers', copies) = checkpoint_all timers in
    let (t', copy) = checkpoint t in (t' ∷ timers', copy ∷ copies)

-- for (i = 0; i < threads; i++) t = sb_timer_merge(&t, &timers_copy[i])
unfoldable pub merge_all : Timer → List Timer → Timer
merge_all t [] = t
merge_all t (u ∷ timers) = merge_all (merge t u) timers

-- The latencies of sb_stat_t that report_cumulative sets, in nanoseconds (NS2SEC follows).
pub record Latency : Type 0 where
  pub latency_min : ℕ
  pub latency_max : ℕ
  pub latency_avg : ℕ
  pub latency_sum : ℕ

pub latency_of : Timer → Latency
latency_of t = record {
  latency_min = timer_min t;
  latency_max = timer_max t;
  latency_avg = timer_avg t;
  latency_sum = timer_sum t;
}

-- report_cumulative: the timers, their copies, and the latencies; `raw` is the memory of the local
-- timer.
unfoldable pub report_cumulative : Timer → List Timer → List Timer × List Timer × Latency
unfolding checkpoint_all merge_all latency_of
report_cumulative raw timers =
    let (timers', copies) = checkpoint_all timers in
    (timers', copies, latency_of (merge_all (init raw) copies))

-- The loop of sb_report_cumulative on a forced shutdown, from thread `i` on: the copies, and the
-- unfinished transactions. `now i` is what sb_timer_stop reads from the clock for the thread.
unfoldable pub stop_running : (ℕ → Timespec) → ℕ → List Timer → List Timer × ℕ
stop_running now i [] = ([], 0)
stop_running now i (t ∷ timers) =
    let (timers', unfinished) = stop_running now (suc i) timers in
    if running t then ((stop (now i) t).0 ∷ timers', suc unfinished) else (t ∷ timers', unfinished)

-- sb_report_cumulative up to the sum of the timers: the unfinished transactions that it prints, and
-- the timers that the threads' fairness is computed from, with their merger.
unfoldable pub fairness : Bool → (ℕ → Timespec) → Timer → List Timer → ℕ × List Timer × Timer
unfolding stop_running merge_all
fairness forced_shutdown_in_progress now raw copies =
    let (copies', unfinished) =
      (if forced_shutdown_in_progress then stop_running now 0 copies else (copies, 0)) in
    (unfinished, copies', merge_all (init raw) copies')

-- ===== src/Timer/Tests.antt =====
-- Runs of the timers of src/sb_timer.h and src/sb_timer.c.
use sysbench.Prelude.{ℕ, List, [], ◌∷◌}
use sysbench.Timer.{Timespec, Timer, init, start, stop}
use sysbench.Timer.Samples.{Measures, reset-Measures, start-Measures, stop-Measures}

abbrev a : Timespec
a = record { tv_sec = 1; tv_nsec = 900000000 }

abbrev b : Timespec
b = record { tv_sec = 2; tv_nsec = 100000000 }

abbrev c : Timespec
c = record { tv_sec = 5; tv_nsec = 0 }

abbrev zeros : Timer
zeros = record {
  time_start = a;
  time_end = a;
  events = 0;
  queue_time = 0;
  min_time = 0;
  max_time = 0;
  sum_time = 0;
}

-- A timer of two events.
abbrev twice : Timer
twice = (stop c (start b (stop b (start a (init zeros))).0)).0

abbrev times : List ℕ
times = 2900000000 ∷ 200000000 ∷ []

twice-Measures : Measures twice times
unfolding init start stop
twice-Measures = stop-Measures (start b (stop b (start a (init zeros))).0) (200000000 ∷ []) c (
    start-Measures (stop b (start a (init zeros))).0 (200000000 ∷ []) b (
      stop-Measures (start a (init zeros)) [] b
        (start-Measures (init zeros) [] a (reset-Measures (init zeros)))))

-- ===== src/Run/Tests.antt =====
-- Runs of worker threads (src/sysbench.c) on a queue that is a list.
use sysbench.Prelude.{
  ℕ, ◌≤◌, ◌≡◌, refl, true, false, Option, none, some, List, [], ◌∷◌, ◌++◌, arith, replicate, tally,
}
use sysbench.Prelude.Samples.{counting}
use sysbench.Histogram.{Histogram}
use sysbench.Timer.{Timer, Timespec, uint64_max}
use sysbench.Run.{Ring, Globals}
use sysbench.Run.Workers.{System, asks, completes, Reach, here, next, start, ask, complete}
use sysbench.Run.Admission.{is_finished}
use sysbench.Run.Limit.{started-limit, started-exact}

abbrev pop : List ℕ → Option (ℕ × List ℕ)
pop [] = none
pop (x ∷ xs) = some (x, xs)

abbrev list_ring : Ring
list_ring = record {
  Queue = List ℕ;
  empty = [];
  enqueue = λ x q. some (q ++ x ∷ []);
  dequeue = pop;
}

abbrev at_second : ℕ → Timespec
at_second n = record { tv_sec = n; tv_nsec = 0 }

abbrev new_timer : Timer
new_timer = record {
  time_start = at_second 0;
  time_end = at_second 0;
  events = 0;
  queue_time = 0;
  min_time = uint64_max;
  max_time = 0;
  sum_time = 0;
}

abbrev no_latencies : Histogram ℕ
no_latencies = record {
  cumulative_array = 0 ∷ [];
  cumulative_nevents = 0;
  temp_array = 0 ∷ [];
  interm_slots = replicate 128 (0 ∷ []);
  array_size = 1;
  range_min = 0;
  range_max = 1;
  range_deduct = 0;
  range_mult = 0;
  locked = false;
}

-- A limit of one event and no percentile.
abbrev one_event : Globals ℕ (List ℕ)
one_event = record {
  error = false;
  tx_rate = 0;
  max_events = 1;
  max_time_ns = 0;
  nevents = 0;
  concurrency = 0;
  percentile = 0;
  queue_array = [];
  queue_ring = [];
  timers = new_timer ∷ new_timer ∷ [];
  exec_timer = new_timer;
  counters = record {
    threads = 2;
    rows = replicate 3 (replicate 8 0);
    last_intermediate = replicate 8 0;
    last_cumulative = replicate 8 0;
  };
  latency_histogram = no_latencies;
}

-- Thread 1 gets the event; thread 0 leaves; thread 1 leaves after its event.
abbrev s1 : System ℕ (List ℕ)
s1 = ask counting list_ring (start one_event 2) 1 (at_second 1) false true

abbrev s2 : System ℕ (List ℕ)
s2 = ask counting list_ring s1 0 (at_second 2) false true

abbrev s3 : System ℕ (List ℕ)
s3 = complete counting list_ring s2 1 (at_second 3) 0 false

abbrev s4 : System ℕ (List ℕ)
s4 = ask counting list_ring s3 1 (at_second 3) false true

s4-Reach : Reach counting list_ring (start one_event 2) s4
unfolding ask complete
s4-Reach =
    next
      (next
        (next (next here (asks (start one_event 2) 1 (at_second 1) false true refl))
          (asks s1 0 (at_second 2) false true refl))
        (completes s2 1 (at_second 3) 0 false refl))
      (asks s3 1 (at_second 3) false true refl)

one_counted :
    (s4.globals.counters.rows)
    ≡ replicate 8 0 ∷ (0 ∷ 0 ∷ 0 ∷ 1 ∷ 0 ∷ 0 ∷ 0 ∷ 0 ∷ []) ∷ replicate 8 0 ∷ []
unfolding ask complete
one_counted = refl

started-limit_example : s4.n_started ≤ 1
started-limit_example =
    started-limit counting list_ring one_event 2 s4 (omega arith) (omega arith) refl s4-Reach

all_left : tally is_finished s4.workers ≡ 2
unfolding ask complete
all_left = refl

none_ended : s4.n_ended ≡ 0
unfolding ask complete
none_ended = refl

still_calm : (s4.globals.error ≡ false) × (s4.globals.max_time_ns ≡ 0)
unfolding ask complete
still_calm = (refl, refl)

started-exact_example : s4.n_started ≡ 1
started-exact_example =
    started-exact counting list_ring one_event 2 s4 (omega arith) (omega arith) refl (omega arith)
      s4-Reach still_calm all_left none_ended

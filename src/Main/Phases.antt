-- ===== src/Main/Phases.antt =====
-- src/sysbench.c: run_test, its worker threads and the callback of their barrier. What the calls of
-- other parts return is an argument; the calls that matter to the other threads and to the test are
-- kept in order.
use sysbench.Prelude.{
  ℕ, suc, ◌+◌, ◌-◌, Bool, true, false, not, Option, none, some, List, [], ◌∷◌, ltb, ◌==◌, ◌&&◌,
  ◌||◌, if◌then◌else◌, length, u32, u32_mod,
}

-- An operation of a test: none when it is a null pointer, else whether it returns 0.
abbrev pub Op : Type 0
Op = Option Bool

unfoldable pub op_succeeds : Op → Bool
op_succeeds none = true
op_succeeds (some succeeds) = succeeds

-- Whether sb_thread_create succeeds for a worker, what its calls of thread_init and thread_run
-- return, and whether there is a thread_done. thread_run is the test's or the function of that
-- name.
pub record WorkerThread : Type 0 where
  pub created : Bool
  pub thread_init : Op
  pub thread_run : ℕ
  pub has_done : Bool

-- What a worker has called, and whether it has set sb_globals.error.
pub record Worked : Type 0 where
  pub ran : Bool
  pub done : Bool
  pub error : Bool

-- worker_thread; `started` says that its wait at worker_barrier does not fail.
unfoldable pub worker_thread : Bool → WorkerThread → Worked
unfolding op_succeeds
worker_thread started w =
    if not (op_succeeds w.thread_init)
    then record { ran = false; done = false; error = true }
    else if not started
    then record { ran = false; done = false; error = false }
    else if not (w.thread_run == 0)
    then record { ran = true; done = false; error = true }
    else record { ran = true; done = w.has_done; error = false }

unfoldable pub init_fails : List WorkerThread → Bool
unfolding op_succeeds
init_fails [] = false
init_fails (w ∷ workers) = not (op_succeeds w.thread_init) || init_fails workers

unfoldable pub any_error : Bool → List WorkerThread → Bool
unfolding worker_thread
any_error started [] = false
any_error started (w ∷ workers) = (worker_thread started w).error || any_error started workers

-- sb_thread_create_workers: the threads that are created, and what is returned.
unfoldable pub create_workers : List WorkerThread → ℕ × ℕ
create_workers [] = (0, 0)
create_workers (w ∷ workers) =
    let (n, status) = create_workers workers in if w.created then (suc n, status) else (0, 1)

-- sb_thread_join_workers: what is returned, and sb_globals.threads_running.
unfoldable pub join_workers : List WorkerThread → ℕ → ℕ × ℕ
join_workers [] running = (0, running)
join_workers (w ∷ workers) running = join_workers workers (u32 (running + u32_mod - 1))

-- The threads besides the workers.
pub data Helper : Type 0 where
  report_thread eventgen_thread checkpoints_thread : Helper

-- The barriers.
pub data Meeting : Type 0 where
  worker_barrier report_barrier : Meeting

pub data Event : Type 0 where
  calls_init calls_prepare calls_cleanup calls_done : Event
  inits : Meeting → ℕ → Event
  creates : Helper → Event
  creates_workers : ℕ → Event
  waits : Meeting → Event
  sets_max_events : ℕ → Event
  checkpoints : Event
  joins_workers : Event
  stops_timers : Event
  terminates : Helper → Event
  prints_histogram : Event
  reports : Event

-- The operations of the test, the members of sb_globals that are read, what the calls return, and
-- the flags that the helpers set; `early` and `late` say that sb_globals.error is set by another
-- thread before and after the barrier.
pub record Plan : Type 0 where
  pub init : Op
  pub prepare : Op
  pub cleanup : Op
  pub has_done : Bool
  pub workers : List WorkerThread
  pub tx_rate : ℕ
  pub report_interval : ℕ
  pub n_checkpoints : ℕ
  pub warmup_time : ℕ
  pub max_events : ℕ
  pub histogram : Bool
  pub barrier_inits : Meeting → Bool
  pub thread_creates : Helper → Bool
  pub report_waits : Bool
  pub was_created : Helper → Bool
  pub early : Bool
  pub late : Bool

-- What is returned, and what was done.
pub record TestRun : Type 0 where
  pub status : ℕ
  pub events : List Event

unfoldable pub after : Event → TestRun → TestRun
after e r = record r { events = e ∷ r.events }

abbrev pub return : ℕ → TestRun
return status = record { status = status; events = [] }

-- threads_started_callback, by whether it returns 0.
unfoldable pub threads_started : Plan → Bool
unfolding init_fails
threads_started p = not (p.early || init_fails p.workers)

-- sb_globals.error when the workers are joined.
unfoldable pub has_error : Plan → Bool
unfolding any_error threads_started
has_error p = p.early || p.late || any_error (threads_started p) p.workers

abbrev pub when : Bool → Event → TestRun → TestRun
when true e r = after e r
when false e r = r

-- An operation of the test.
abbrev pub call_op : Op → Event → TestRun → TestRun
call_op none e r = r
call_op (some true) e r = after e r
call_op (some false) e r = after e (return 1)

unfoldable pub finalize : Plan → TestRun
unfolding after has_error
finalize p = when (not (has_error p) && p.histogram) prints_histogram (
    when (not (has_error p)) reports
      (when p.has_done calls_done (return (if has_error p then 1 else 0))))

unfoldable pub terminate_helpers : Plan → TestRun
unfolding after finalize
terminate_helpers p = when (p.was_created report_thread) (terminates report_thread) (
    when (p.was_created eventgen_thread) (terminates eventgen_thread)
      (when (p.was_created checkpoints_thread) (terminates checkpoints_thread) (finalize p)))

-- From the joining of the workers on.
unfoldable pub wind_up : Plan → TestRun
unfolding after terminate_helpers join_workers
wind_up p =
    let joined = after stops_timers (call_op p.cleanup calls_cleanup (terminate_helpers p)) in
    let (status, running) = join_workers p.workers (length p.workers) in
    after joins_workers (if status == 0 then joined else return status)

-- From the warm-up on.
unfoldable pub warm_up : Plan → TestRun
unfolding after wind_up
warm_up p =
    let meet = after (waits report_barrier) (if p.report_waits then wind_up p else return 1) in
    if ltb 0 p.warmup_time
    then after (sets_max_events p.max_events) (after checkpoints meet)
    else meet

-- From the creation of the workers on.
unfoldable pub start_workers : Plan → TestRun
unfolding after warm_up threads_started create_workers
start_workers p =
    let meet = after (waits worker_barrier) (if threads_started p then warm_up p else return 1) in
    let (created, status) = create_workers p.workers in
    after (creates_workers created)
      (if status == 0 then when (ltb 0 p.warmup_time) (sets_max_events 0) meet else return status)

-- The creation of a helper, if it is wanted.
unfoldable pub start_helper : Plan → ℕ → Helper → TestRun → TestRun
unfolding after
start_helper p wanted h r =
    if ltb 0 wanted then after (creates h) (if p.thread_creates h then r else return 1) else r

abbrev pub one_if : ℕ → ℕ
one_if wanted = if ltb 0 wanted then 1 else 0

-- The initialisation of a barrier.
unfoldable pub start_barrier : Plan → Meeting → ℕ → TestRun → TestRun
unfolding after
start_barrier p m count r = after (inits m count) (if p.barrier_inits m then r else return 1)

-- run_test
unfoldable pub run_test : Plan → TestRun
unfolding start_barrier start_helper start_workers
run_test p = call_op p.init calls_init (
    call_op p.prepare calls_prepare (
      start_barrier p worker_barrier (u32 (1 + length p.workers + one_if p.tx_rate)) (
        start_barrier p report_barrier (u32 (1 + one_if p.report_interval + one_if p.n_checkpoints))
          (start_helper p p.report_interval report_thread (
            start_helper p p.tx_rate eventgen_thread
              (start_helper p p.n_checkpoints checkpoints_thread (start_workers p)))))))

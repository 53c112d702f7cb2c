-- ===== src/Run/Workers.antt =====
-- The worker threads of src/sysbench.c: thread_run and worker_thread's handling of its result, for
-- every interleaving of the threads, of the event generator and of wake-ups, spurious ones too.
use sysbench.Prelude.{
  ℕ, ◌+◌, ◌≡◌, Bool, true, false, some, List, if◌then◌else◌, get_elem?, set, replicate,
}
use sysbench.Prelude.Float.{Double}
use sysbench.Timer.{Timespec}
use sysbench.Run.{
  Ring, Globals, Outcome, admitted, refused, queueing, asleep, null_pointer, more_events, woken,
  take_event, generate_event, event_start, event_stop,
}

-- Where a thread is: before sb_more_events, at the queue or asleep in it, with the result `rc` of
-- its last event (whether it failed); executing an event; done; crashed.
pub data Worker : Type 0 where
  ready : Bool → Worker
  sleeping : Bool → Worker
  at_queue : Bool → Worker
  executing : Worker
  finished : Worker
  crashed : Worker

-- The calls that sb_more_events has admitted, the events that have been started, and the calls
-- after which next_event had no event, are counted for the theorems.
pub record System (D : Type 0) (Q : Type 0) : Type 0 where
  pub globals : Globals D Q
  pub workers : List Worker
  pub n_admitted : ℕ
  pub n_started : ℕ
  pub n_ended : ℕ

module _ {D Q : Type 0} where
  -- thread_run after sb_more_events has returned true: a failed event ends the loop, and
  -- worker_thread sets the error flag; next_event has an event or not; an event is started.
  unfoldable pub admit : System D Q → ℕ → Timespec → Bool → Bool → System D Q
  unfolding event_start
  admit s i now rc has_event =
      let t = record s { n_admitted = s.n_admitted + 1 } in
      if rc
      then record t {
        globals = record t.globals { error = true };
        workers = set t.workers i finished;
      }
      else if has_event
      then record t {
        globals = event_start i now t.globals;
        workers = set t.workers i executing;
        n_started = t.n_started + 1;
      }
      else record t { workers = set t.workers i finished; n_ended = t.n_ended + 1 }

  -- thread_run and worker_thread after what sb_more_events has come to
  unfoldable pub go_on : System D Q → ℕ → Timespec → Bool → Bool → Outcome → System D Q
  unfolding admit
  go_on s i now rc has_event admitted = admit s i now rc has_event
  go_on s i now rc has_event refused = record s {
    globals = record s.globals { error = if rc then true else s.globals.error };
    workers = set s.workers i finished;
  }
  go_on s i now rc has_event queueing = record s { workers = set s.workers i (at_queue rc) }
  go_on s i now rc has_event asleep = record s { workers = set s.workers i (sleeping rc) }
  go_on s i now rc has_event null_pointer = record s { workers = set s.workers i crashed }

  -- The threads enter thread_run after the worker barrier; `rc` starts at 0.
  abbrev pub start : Globals D Q → ℕ → System D Q
  start g threads = record {
    globals = g;
    workers = replicate threads (ready false);
    n_admitted = 0;
    n_started = 0;
    n_ended = 0;
  }

module _ (F : Double) (R : Ring) where
  open F use {D}
  open R use {Queue}

  -- A thread calls sb_more_events.
  unfoldable pub ask : System D Queue → ℕ → Timespec → Bool → Bool → System D Queue
  unfolding more_events go_on
  ask s i now rc has_event =
      let (g, outcome) = more_events R now s.globals in
      go_on (record s { globals = g }) i now rc has_event outcome

  -- A thread that sleeps in sb_more_events wakes up.
  unfoldable pub wake : System D Queue → ℕ → Timespec → Bool → Bool → System D Queue
  unfolding woken go_on
  wake s i now rc has_event =
      let (g, outcome) = woken R now s.globals in
      go_on (record s { globals = g }) i now rc has_event outcome

  -- A thread takes an event from the queue, or finds none.
  unfoldable pub take : System D Queue → ℕ → Timespec → Bool → Bool → System D Queue
  unfolding take_event go_on
  take s i now rc has_event =
      let (g, outcome) = take_event R i now s.globals in
      go_on (record s { globals = g }) i now rc has_event outcome

  -- execute_event returns, with or without an error.
  unfoldable pub complete : System D Queue → ℕ → Timespec → ℕ → Bool → System D Queue
  unfolding event_stop
  complete s i now random rc = record s {
    globals = event_stop F i now random s.globals;
    workers = set s.workers i (ready rc);
  }

  pub data Step : System D Queue → System D Queue → Type 0 where
    asks :
        (s : System D Queue) (i : ℕ) (now : Timespec) (rc has_event : Bool)
        → get_elem? s.workers i ≡ some (ready rc)
        → Step s (ask s i now rc has_event)
    wakes :
        (s : System D Queue) (i : ℕ) (now : Timespec) (rc has_event : Bool)
        → get_elem? s.workers i ≡ some (sleeping rc)
        → Step s (wake s i now rc has_event)
    takes :
        (s : System D Queue) (i : ℕ) (now : Timespec) (rc has_event : Bool)
        → get_elem? s.workers i ≡ some (at_queue rc)
        → Step s (take s i now rc has_event)
    completes :
        (s : System D Queue) (i : ℕ) (now : Timespec) (random : ℕ) (rc : Bool)
        → get_elem? s.workers i ≡ some executing
        → Step s (complete s i now random rc)
    generates :
        (s : System D Queue) (i : ℕ) (now : Timespec)
        → Step s (record s { globals = generate_event R i now s.globals })

  pub data Reach (s : System D Queue) : System D Queue → Type 0 where
    here : Reach s s
    next : {t u : System D Queue} → Reach s t → Step t u → Reach s u

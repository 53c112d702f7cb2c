-- ===== src/Run.antt =====
-- src/sysbench.c: the events of a test. A worker thread asks for an event by sb_more_events and
-- times it by sb_event_start and sb_event_stop. The ring of ck_ring.h, the queue of the tx-rate
-- mode, is a parameter; what a clock reads is an argument.
pub mod Workers
pub mod Admission
pub mod Accounts
pub mod Moves
pub mod Limit
pub mod Queue
mod Tests
use sysbench.Prelude.{
  ℕ, ◌+◌, Bool, true, false, ◌&&◌, Option, none, some, List, u64, u32, sub64, sub32, ltb, leb, ◌==◌,
  if◌then◌else◌, get_or, modify, set,
}
use sysbench.Prelude.Float.{Double}
use sysbench.Histogram
use sysbench.Histogram.{Histogram}
use sysbench.Timer
use sysbench.Timer.{Timer, Timespec, value}
use sysbench.Counters.{Counters, counter_inc, event}

-- NS_PER_MS
abbrev pub ns_per_ms : ℕ
ns_per_ms = 1000000

-- MAX_QUEUE_LEN
abbrev pub max_queue_len : ℕ
max_queue_len = 131072

-- ck_ring_t with its buffer: a queue of pointers into queue_array, here indices.
pub record Ring : Type 1 where
  pub Queue : Type 0
  pub empty : Queue
  -- ck_ring_enqueue_spmc, which fails on a full ring
  pub enqueue : ℕ → Queue → Option Queue
  -- ck_ring_dequeue_spmc, which fails on an empty ring
  pub dequeue : Queue → Option (ℕ × Queue)

-- The part of sb_globals and of the static variables that the threads share.
pub record Globals (D : Type 0) (Q : Type 0) : Type 0 where
  pub error : Bool
  pub tx_rate : ℕ
  pub max_events : ℕ
  pub max_time_ns : ℕ
  pub nevents : ℕ
  pub concurrency : ℕ
  pub percentile : ℕ
  pub queue_array : List ℕ
  pub queue_ring : Q
  pub timers : List Timer
  pub exec_timer : Timer
  pub counters : Counters
  pub latency_histogram : Histogram D

-- How sb_more_events goes on: it returns true or false, turns to the queue, sleeps on queue_cond,
-- or reads through the null pointer that a failed dequeue leaves.
pub data Outcome : Type 0 where
  admitted : Outcome
  refused : Outcome
  queueing : Outcome
  asleep : Outcome
  null_pointer : Outcome

module _ {D : Type 0} (R : Ring) where
  open R use {Queue, enqueue, dequeue}

  -- The check of the time limit.
  unfoldable pub time_is_up : Timespec → Globals D Queue → Bool
  unfolding value
  time_is_up now g = ltb 0 g.max_time_ns && leb g.max_time_ns (value now g.exec_timer)

  -- What the result of a dequeue leads to: the event is taken, or the loop's condition is false for
  -- the error flag, or it is true.
  unfoldable pub dequeued :
      ℕ → Timespec → Globals D Queue → Option (ℕ × Queue) → Globals D Queue × Outcome
  unfolding value
  dequeued thread_id now g (some (ptr, ring)) =
      let queued = get_or g.queue_array ptr 0 in
      (
        record g {
          queue_ring = ring;
          concurrency = u32 (g.concurrency + 1);
          timers =
              modify g.timers thread_id
                (λ t. record t { queue_time = sub64 (value now g.exec_timer) queued });
        },
        admitted,
      )
  dequeued thread_id now g none = (g, if g.error then null_pointer else asleep)

  -- The condition of the loop in sb_more_events and what follows the loop.
  unfoldable pub take_event : ℕ → Timespec → Globals D Queue → Globals D Queue × Outcome
  unfolding dequeued
  take_event thread_id now g = dequeued thread_id now g (dequeue g.queue_ring)

  -- sb_more_events after its checks of the error flag and of the two limits
  unfoldable pub queue_event : Globals D Queue → Globals D Queue × Outcome
  queue_event g = (g, if ltb 0 g.tx_rate then queueing else admitted)

  -- sb_more_events up to its return or to the queue; ck_pr_faa_64 adds 1 and tells what was there.
  unfoldable pub more_events : Timespec → Globals D Queue → Globals D Queue × Outcome
  unfolding time_is_up queue_event
  more_events now g =
      if g.error
      then (g, refused)
      else if time_is_up now g
      then (g, refused)
      else if ltb 0 g.max_events
      then (let counted = record g { nevents = u64 (g.nevents + 1) } in
          if leb g.max_events g.nevents then (counted, refused) else queue_event counted)
      else queue_event g

  -- sb_more_events after a wake-up: it checks again, and turns to the queue.
  unfoldable pub woken : Timespec → Globals D Queue → Globals D Queue × Outcome
  unfolding time_is_up
  woken now g =
      if g.error then (g, refused) else if time_is_up now g then (g, refused) else (g, queueing)

  unfoldable pub enqueued : Globals D Queue → Option Queue → Globals D Queue
  enqueued g (some ring) = record g { queue_ring = ring }
  enqueued g none = record g { error = true }

  -- The event generator puts the time of an event into element `i` of queue_array and the element
  -- into the ring; on a full ring it sets the error flag.
  unfoldable pub generate_event : ℕ → Timespec → Globals D Queue → Globals D Queue
  unfolding value enqueued
  generate_event i now g =
      enqueued (record g { queue_array = set g.queue_array i (value now g.exec_timer) })
        (enqueue i g.queue_ring)

-- sb_event_start
unfoldable pub event_start : {D Q : Type 0} → ℕ → Timespec → Globals D Q → Globals D Q
event_start thread_id now g = record g { timers = modify g.timers thread_id (Timer.start now) }

abbrev no_timer : Timer
no_timer = record {
  time_start = record { tv_sec = 0; tv_nsec = 0 };
  time_end = record { tv_sec = 0; tv_nsec = 0 };
  events = 0;
  queue_time = 0;
  min_time = 0;
  max_time = 0;
  sum_time = 0;
}

module _ (F : Double) {Q : Type 0} where
  open F use {D, div, of_nat}

  -- sb_event_stop, of an event of less than 2 ^ 63 ns; `random` is the random number by which
  -- sb_histogram_update picks a slot.
  unfoldable pub event_stop : ℕ → Timespec → ℕ → Globals D Q → Globals D Q
  unfolding counter_inc
  event_stop thread_id now random g =
      let (timer, elapsed) = Timer.stop now (get_or g.timers thread_id no_timer) in
      record g {
        timers = set g.timers thread_id timer;
        latency_histogram =
            if ltb 0 g.percentile
            then Histogram.update F g.latency_histogram (div (of_nat elapsed) (of_nat ns_per_ms))
                random
            else g.latency_histogram;
        counters = counter_inc g.counters thread_id event;
        concurrency = if ltb 0 g.tx_rate then sub32 g.concurrency 1 else g.concurrency;
      }

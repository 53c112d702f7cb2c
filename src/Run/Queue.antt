-- ===== src/Run/Queue.antt =====
-- The queue of events of the tx-rate mode (src/sysbench.c).
use sysbench.Prelude.{ℕ, ◌≡◌, ◌↔◌, refl, true, Option, none, some, arith}
use sysbench.Timer.{Timespec}
use sysbench.Run.{Ring, Globals, null_pointer, dequeued, take_event}

module _ {D : Type 0} (R : Ring) where
  open R use {Queue, enqueue, dequeue}

  dequeued-null :
      (i : ℕ) (now : Timespec) (g : Globals D Queue) (o : Option (ℕ × Queue))
      → ((dequeued R i now g o).1 ≡ null_pointer) ↔ ((o ≡ none) × (g.error ≡ true))
  unfolding dequeued
  dequeued-null i now g none = (λ e. (refl, ground (arith, e)), λ h. ground (arith, h.1))
  dequeued-null i now g (some p) = (λ e. cc, λ h. cc)

  -- The loop of sb_more_events ends with no event taken, so that the code after it reads through
  -- the null pointer, exactly when the thread finds the queue empty and the error flag set: the
  -- loop's condition tests the flag, and nothing tests it after the loop.
  pub take_event-null :
      (i : ℕ) (now : Timespec) (g : Globals D Queue)
      → ((take_event R i now g).1 ≡ null_pointer)
        ↔ ((dequeue g.queue_ring ≡ none) × (g.error ≡ true))
  unfolding take_event
  take_event-null i now g = dequeued-null i now g (dequeue g.queue_ring)

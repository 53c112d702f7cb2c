-- ===== src/Run/Admission.antt =====
-- What one call of sb_more_events (src/sysbench.c) does to the event limit's accounts.
use sysbench.Prelude.{
  ℕ, ◌+◌, ◌≤◌, ◌<◌, ◌≡◌, ◌⊎◌, inl, inr, refl, true, Option, none, some, arith, u64, ltb, leb,
  if◌then◌else◌, if-elim,
}
use sysbench.Timer.{Timespec}
use sysbench.Run.{
  Ring, Globals, Outcome, refused, dequeued, take_event, queue_event, more_events, woken,
  time_is_up,
}
use sysbench.Run.Workers.{Worker, sleeping, at_queue, finished, crashed}

-- At the queue, asleep or crashed in a call that the limit has let pass.
abbrev pub is_pending : Worker → ℕ
is_pending (sleeping rc) = 1
is_pending (at_queue rc) = 1
is_pending crashed = 1
is_pending _ = 0

abbrev pub is_finished : Worker → ℕ
is_finished finished = 1
is_finished _ = 0

abbrev pub is_crashed : Worker → ℕ
is_crashed crashed = 1
is_crashed _ = 0

abbrev pub passes : Outcome → ℕ
passes refused = 0
passes _ = 1

-- The limit and the rest of the globals that a call does not touch.
pub record Same {D Q : Type 0} (g h : Globals D Q) : Type 0 where
  pub max_events : h.max_events ≡ g.max_events
  pub max_time_ns : h.max_time_ns ≡ g.max_time_ns
  pub error : h.error ≡ g.error
  pub tx_rate : h.tx_rate ≡ g.tx_rate

module _ {D : Type 0} (R : Ring) where
  open R use {Queue, dequeue}

  dequeued-Same :
      (i : ℕ) (now : Timespec) (g : Globals D Queue) (o : Option (ℕ × Queue))
      → Same g (dequeued R i now g o).0
        × ((dequeued R i now g o).0.nevents ≡ g.nevents)
        × (passes (dequeued R i now g o).1 ≡ 1)
  unfolding dequeued
  dequeued-Same i now g none = (
    record { max_events = refl; max_time_ns = refl; error = refl; tx_rate = refl },
    refl,
    ground arith,
  )
  dequeued-Same i now g (some p) =
      (record { max_events = refl; max_time_ns = refl; error = refl; tx_rate = refl }, refl, refl)

  pub take_event-Same :
      (i : ℕ) (now : Timespec) (g : Globals D Queue)
      → Same g (take_event R i now g).0
        × ((take_event R i now g).0.nevents ≡ g.nevents)
        × (passes (take_event R i now g).1 ≡ 1)
  unfolding take_event
  take_event-Same i now g = dequeued-Same i now g (dequeue g.queue_ring)

  -- The three ways through the checks of sb_more_events, under an event limit: it stops before it
  -- counts, it stops at the limit, and it goes on.
  pub data Checked (g : Globals D Queue) (out : Globals D Queue × Outcome) : Type 0 where
    stopped :
        Same g out.0
        → out.0.nevents ≡ g.nevents
        → out.1 ≡ refused
        → (g.error ≡ true) ⊎ (0 < g.max_time_ns)
        → Checked g out
    exceeded :
        Same g out.0
        → out.0.nevents ≡ u64 (g.nevents + 1)
        → out.1 ≡ refused
        → g.max_events ≤ g.nevents
        → Checked g out
    passed :
        Same g out.0
        → out.0.nevents ≡ u64 (g.nevents + 1)
        → passes out.1 ≡ 1
        → g.nevents < g.max_events
        → Checked g out

  pub more_events-Checked :
      (now : Timespec) (g : Globals D Queue) → 0 < g.max_events → Checked g (more_events R now g)
  unfolding more_events time_is_up queue_event
  more_events-Checked now g limit =
      if-elim (Checked g) g.error (λ failed. stopped unchanged refl refl (inl failed))
        (λ fine.
          if-elim (Checked g) (time_is_up R now g)
            (λ late. stopped unchanged refl refl (inr (ground arith)))
            (λ early.
              if-elim (Checked g) (ltb 0 g.max_events) (λ limited. counted)
                (λ unlimited. absurd (ground arith))))
    where
      unchanged : Same g g
      unchanged = record { max_events = refl; max_time_ns = refl; error = refl; tx_rate = refl }

      after : Globals D Queue
      after = record g { nevents = u64 (g.nevents + 1) }

      counted :
          Checked g (if leb g.max_events g.nevents then (after, refused) else queue_event R after)
      counted =
          if-elim (Checked g) (leb g.max_events g.nevents)
            (λ over.
              exceeded
                (record { max_events = refl; max_time_ns = refl; error = refl; tx_rate = refl })
                refl refl (ground arith))
            (λ under.
              passed
                (record { max_events = refl; max_time_ns = refl; error = refl; tx_rate = refl })
                refl (ground arith) (ground arith))

  -- After a wake-up there is nothing to count.
  pub data Rechecked (g : Globals D Queue) (out : Globals D Queue × Outcome) : Type 0 where
    stopped :
        Same g out.0
        → out.0.nevents ≡ g.nevents
        → out.1 ≡ refused
        → (g.error ≡ true) ⊎ (0 < g.max_time_ns)
        → Rechecked g out
    went_on : Same g out.0 → out.0.nevents ≡ g.nevents → passes out.1 ≡ 1 → Rechecked g out

  pub woken-Rechecked : (now : Timespec) (g : Globals D Queue) → Rechecked g (woken R now g)
  unfolding woken time_is_up
  woken-Rechecked now g =
      if-elim (Rechecked g) g.error (λ failed. stopped unchanged refl refl (inl failed))
        (λ fine.
          if-elim (Rechecked g) (time_is_up R now g)
            (λ late. stopped unchanged refl refl (inr (ground arith)))
            (λ early. went_on unchanged refl refl))
    where
      unchanged : Same g g
      unchanged = record { max_events = refl; max_time_ns = refl; error = refl; tx_rate = refl }

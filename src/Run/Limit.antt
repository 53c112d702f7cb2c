-- ===== src/Run/Limit.antt =====
-- The event limit of src/sysbench.c, in every interleaving of the worker threads.
use sysbench.Prelude.{
  ℕ, zero, suc, ◌+◌, ◌≤◌, ◌<◌, ◌≡◌, refl, false, List, [], ◌∷◌, arith, u64_mod, length,
  length-replicate, replicate, tally,
}
use sysbench.Prelude.Float.{Double}
use sysbench.Run.{Ring, Globals}
use sysbench.Run.Workers.{Worker, ready, System, Reach, start}
use sysbench.Run.Admission.{is_pending, is_finished}
use sysbench.Run.Accounts.{IsCalm, Accounts}
use sysbench.Run.Moves.{Reach-Accounts}

tally-ready :
    (f : Worker → ℕ) (n : ℕ) → f (ready false) ≡ 0 → tally f (replicate n (ready false)) ≡ 0
tally-ready f zero h = refl
tally-ready f (suc n) h = omega (arith, h, tally-ready f n h)

start-Accounts :
    {D Q : Type 0} (g : Globals D Q) (threads : ℕ)
    → g.nevents ≡ 0
    → Accounts g.max_events threads 0 0 (start g threads)
start-Accounts g threads e =
    let f = tally-ready is_finished threads refl in
    let p = tally-ready is_pending threads refl in
    record {
      limit = refl;
      threads = length-replicate threads (ready false);
      admissions = omega (arith, p, e);
      refusals = omega (arith, f, e);
      starts = omega arith;
      exact = λ c. omega (arith, p, e);
      all_start = λ c. refl;
      all_used = λ c used. absurd (omega (arith, f, used));
    }

tally-apart : (ws : List Worker) → tally is_finished ws + tally is_pending ws ≤ length ws
tally-apart [] = omega arith
tally-apart (w ∷ ws) = omega (arith, tally-apart ws, apart w)
  where
    apart : (w : Worker) → is_finished w + is_pending w ≤ 1
    apart w = ground arith

module _ (F : Double) (R : Ring) where
  open F use {D}
  open R use {Queue}

  -- With a limit on the number of events, no interleaving of the worker threads, of the event
  -- generator and of wake-ups starts more events than the limit, from a count of 0 and if the
  -- limit and the number of threads fit in a uint64_t.
  pub started-limit :
      (g : Globals D Queue) (threads : ℕ) (s : System D Queue)
      → 0 < g.max_events
      → g.max_events + threads + 1 < u64_mod
      → g.nevents ≡ 0
      → Reach F R (start g threads) s
      → s.n_started ≤ g.max_events
  started-limit g threads s pos fit e r =
      let a = Reach-Accounts F R pos fit r (start-Accounts g threads e) in
      omega (arith, a.admissions, a.starts)

  -- When every thread has left its event loop, no error has been flagged, there is no time limit
  -- and next_event always had an event, then exactly as many events as the limit have been started:
  -- none of the limit is lost, whatever the interleaving.
  pub started-exact :
      (g : Globals D Queue) (threads : ℕ) (s : System D Queue)
      → 0 < g.max_events
      → g.max_events + threads + 1 < u64_mod
      → g.nevents ≡ 0
      → 0 < threads
      → Reach F R (start g threads) s
      → IsCalm s.globals
      → tally is_finished s.workers ≡ threads
      → s.n_ended ≡ 0
      → s.n_started ≡ g.max_events
  started-exact g threads s pos fit e some_thread r calm all_left no_end =
      let a = Reach-Accounts F R pos fit r (start-Accounts g threads e) in
      omega (
        arith,
        a.admissions,
        a.exact calm,
        a.all_start calm,
        a.all_used calm (omega arith),
        tally-apart s.workers,
        a.threads,
      )

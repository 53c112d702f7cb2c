-- ===== src/Run/Moves.antt =====
-- The accounts of the event limit through the steps of the worker threads (src/sysbench.c).
use sysbench.Prelude.{
  ℕ, ◌+◌, ◌≤◌, ◌<◌, ◌≡◌, ◌∙◌, refl, sym, subst, Bool, some, arith, u64_mod, get_elem?, length,
  tally,
}
use sysbench.Prelude.Float.{Double}
use sysbench.Timer.{Timespec}
use sysbench.Run.{
  Ring, Globals, Outcome, more_events, woken, take_event, generate_event, event_stop,
}
use sysbench.Run.Workers.{
  ready, sleeping, at_queue, System, go_on, ask, wake, take, complete, Step, asks, wakes, takes,
  completes, generates, Reach, here, next,
}
use sysbench.Run.Admission.{
  is_finished, Checked, stopped, exceeded, passed, more_events-Checked, Rechecked, went_on,
  woken-Rechecked, take_event-Same,
}
use sysbench.Run.Accounts.{
  Accounts, tally-bound, move-Accounts, pass-Accounts, refuse-Accounts, IsCalm-Same,
  stopped-not_calm, enqueued-Accounts,
}

module _ (F : Double) (R : Ring) {m n : ℕ} where
  open F use {D}
  open R use {Queue}

  ask-Accounts :
      (s : System D Queue) (i : ℕ) (now : Timespec) (rc has_event : Bool)
      → 0 < m
      → m + n + 1 < u64_mod
      → get_elem? s.workers i ≡ some (ready rc)
      → Accounts m n 0 0 s
      → Accounts m n 0 0 (ask F R s i now rc has_event)
  unfolding ask
  ask-Accounts s i now rc has_event pos fit e a =
      go (more_events-Checked R now s.globals (omega (arith, a.limit)))
    where
      out : Globals D Queue × Outcome
      out = more_events R now s.globals

      bound : tally is_finished s.workers ≤ length s.workers
      bound = tally-bound is_finished s.workers (λ w. ground arith)

      go :
          Checked R s.globals out
          → Accounts m n 0 0 (go_on (record s { globals = out.0 }) i now rc has_event out.1)
      go (stopped same ne o why) =
          subst (λ x. Accounts m n 0 0 (go_on (record s { globals = out.0 }) i now rc has_event x))
            (sym o)
            (refuse-Accounts (record s { globals = out.0 }) i now rc has_event e refl (λ c. refl)
              (record {
                limit = same.max_events ∙ a.limit;
                threads = a.threads;
                admissions = omega (arith, a.admissions, ne);
                refusals = omega (arith, a.refusals, ne);
                starts = a.starts;
                exact = λ c. absurd (stopped-not_calm same why c);
                all_start = λ c. absurd (stopped-not_calm same why c);
                all_used = λ c used. absurd (stopped-not_calm same why c);
              }))
      go (exceeded same ne o over) =
          subst (λ x. Accounts m n 0 0 (go_on (record s { globals = out.0 }) i now rc has_event x))
            (sym o)
            (refuse-Accounts (record s { globals = out.0 }) i now rc has_event e refl (λ c. refl)
              (record {
                limit = same.max_events ∙ a.limit;
                threads = a.threads;
                admissions =
                    omega (arith, a.admissions, ne, over, a.limit, a.refusals, bound, a.threads);
                refusals = omega (arith, a.refusals, ne);
                starts = a.starts;
                exact = λ c. omega (
                  arith,
                  a.exact (IsCalm-Same same c),
                  ne,
                  over,
                  a.limit,
                  a.refusals,
                  bound,
                  a.threads,
                );
                all_start = λ c. a.all_start (IsCalm-Same same c);
                all_used = λ c used. omega (arith, ne, over, a.limit, a.refusals, bound, a.threads);
              }))
      go (passed same ne o under) =
          pass-Accounts (record s { globals = out.0 }) i now rc has_event out.1 1 e refl o refl
            (record {
              limit = same.max_events ∙ a.limit;
              threads = a.threads;
              admissions = omega (arith, a.admissions, ne, under, a.limit);
              refusals = omega (arith, a.refusals, ne, under, a.limit);
              starts = a.starts;
              exact = λ c. omega (arith, a.exact (IsCalm-Same same c), ne, under, a.limit);
              all_start = λ c. a.all_start (IsCalm-Same same c);
              all_used = λ c used.
                  absurd
                    (omega (arith, a.all_used (IsCalm-Same same c) (omega arith), under, a.limit));
            })

  wake-Accounts :
      (s : System D Queue) (i : ℕ) (now : Timespec) (rc has_event : Bool)
      → get_elem? s.workers i ≡ some (sleeping rc)
      → Accounts m n 0 0 s
      → Accounts m n 0 0 (wake F R s i now rc has_event)
  unfolding wake
  wake-Accounts s i now rc has_event e a = go (woken-Rechecked R now s.globals)
    where
      out : Globals D Queue × Outcome
      out = woken R now s.globals

      go :
          Rechecked R s.globals out
          → Accounts m n 0 0 (go_on (record s { globals = out.0 }) i now rc has_event out.1)
      go (stopped same ne o why) =
          subst (λ x. Accounts m n 0 0 (go_on (record s { globals = out.0 }) i now rc has_event x))
            (sym o)
            (refuse-Accounts (record s { globals = out.0 }) i now rc has_event e refl
              (λ c. absurd (stopped-not_calm same why c))
              (record {
                limit = same.max_events ∙ a.limit;
                threads = a.threads;
                admissions = omega (arith, a.admissions, ne);
                refusals = omega (arith, a.refusals, ne);
                starts = a.starts;
                exact = λ c. absurd (stopped-not_calm same why c);
                all_start = λ c. absurd (stopped-not_calm same why c);
                all_used = λ c used. absurd (stopped-not_calm same why c);
              }))
      go (went_on same ne o) =
          pass-Accounts (record s { globals = out.0 }) i now rc has_event out.1 0 e refl o refl
            (record {
              limit = same.max_events ∙ a.limit;
              threads = a.threads;
              admissions = omega (arith, a.admissions, ne);
              refusals = omega (arith, a.refusals, ne);
              starts = a.starts;
              exact = λ c. omega (arith, a.exact (IsCalm-Same same c), ne);
              all_start = λ c. a.all_start (IsCalm-Same same c);
              all_used = λ c used. omega (arith, a.all_used (IsCalm-Same same c) used, ne);
            })

  take-Accounts :
      (s : System D Queue) (i : ℕ) (now : Timespec) (rc has_event : Bool)
      → get_elem? s.workers i ≡ some (at_queue rc)
      → Accounts m n 0 0 s
      → Accounts m n 0 0 (take F R s i now rc has_event)
  unfolding take
  take-Accounts s i now rc has_event e a =
      let out = take_event R i now s.globals in
      let (same, ne, o) = take_event-Same R i now s.globals in
      pass-Accounts (record s { globals = out.0 }) i now rc has_event out.1 0 e refl o refl
        (record {
          limit = same.max_events ∙ a.limit;
          threads = a.threads;
          admissions = omega (arith, a.admissions, ne);
          refusals = omega (arith, a.refusals, ne);
          starts = a.starts;
          exact = λ c. omega (arith, a.exact (IsCalm-Same same c), ne);
          all_start = λ c. a.all_start (IsCalm-Same same c);
          all_used = λ c used. omega (arith, a.all_used (IsCalm-Same same c) used, ne);
        })

  Step-Accounts :
      {s t : System D Queue}
      → 0 < m
      → m + n + 1 < u64_mod
      → Step F R s t
      → Accounts m n 0 0 s
      → Accounts m n 0 0 t
  unfolding complete event_stop generate_event
  Step-Accounts pos fit (asks s i now rc has_event e) a =
      ask-Accounts s i now rc has_event pos fit e a
  Step-Accounts pos fit (wakes s i now rc has_event e) a = wake-Accounts s i now rc has_event e a
  Step-Accounts pos fit (takes s i now rc has_event e) a = take-Accounts s i now rc has_event e a
  Step-Accounts pos fit (completes s i now random rc e) a =
      move-Accounts s (complete F R s i now random rc) i (ready rc) e a refl refl refl (λ c. c)
        (omega arith) (omega arith) a.starts (λ c. omega arith) a.all_start (λ c. omega arith)
  Step-Accounts pos fit (generates s i now) a =
      enqueued-Accounts R s _ (Ring.enqueue R i s.globals.queue_ring) refl refl (λ c. c) a

  pub Reach-Accounts :
      {s t : System D Queue}
      → 0 < m
      → m + n + 1 < u64_mod
      → Reach F R s t
      → Accounts m n 0 0 s
      → Accounts m n 0 0 t
  Reach-Accounts pos fit here a = a
  Reach-Accounts pos fit (next r step) a = Step-Accounts pos fit step (Reach-Accounts pos fit r a)

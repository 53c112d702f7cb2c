-- ===== src/Main/Status.antt =====
-- When a test counts as passed: what run_test (src/sysbench.c) returns.
use sysbench.Prelude.{
  ℕ, u32, zero, suc, ◌+◌, ◌≡◌, ◌↔◌, ◌⊎◌, refl, Bool, true, false, not, subst, none, some, List, [],
  ◌∷◌, arith, ltb, ◌==◌, ◌||◌, if◌then◌else◌, inl, inr, Bool-cases, length,
}
use sysbench.Main.Phases.{
  Op, op_succeeds, WorkerThread, worker_thread, init_fails, any_error, create_workers, join_workers,
  Helper, report_thread, eventgen_thread, checkpoints_thread, Meeting, worker_barrier,
  report_barrier, Event, Plan, TestRun, after, threads_started, has_error, finalize,
  terminate_helpers, wind_up, warm_up, start_workers, start_helper, start_barrier, run_test, when,
  call_op, return, one_if,
}

-- A worker that is created, initialised and runs without an error.
abbrev pub Passes : WorkerThread → Type 0
Passes w = (w.created ≡ true) × ((op_succeeds w.thread_init ≡ true) × (w.thread_run ≡ 0))

abbrev pub AllPass : List WorkerThread → Type 0
AllPass [] = Unit {0}
AllPass (w ∷ workers) = Passes w × AllPass workers

-- A helper is created if it is wanted.
abbrev pub Starts : Plan → ℕ → Helper → Type 0
Starts p wanted h = (wanted ≡ 0) ⊎ (p.thread_creates h ≡ true)

-- Nothing that run_test needs fails.
pub record Succeeds (p : Plan) : Type 0 where
  pub init : op_succeeds p.init ≡ true
  pub prepare : op_succeeds p.prepare ≡ true
  pub worker_meeting : p.barrier_inits worker_barrier ≡ true
  pub report_meeting : p.barrier_inits report_barrier ≡ true
  pub reporter : Starts p p.report_interval report_thread
  pub generator : Starts p p.tx_rate eventgen_thread
  pub checkpointer : Starts p p.n_checkpoints checkpoints_thread
  pub workers : AllPass p.workers
  pub early : p.early ≡ false
  pub late : p.late ≡ false
  pub report_waits : p.report_waits ≡ true
  pub cleanup : op_succeeds p.cleanup ≡ true

abbrev IsZero : TestRun → Type 0
IsZero r = r.status ≡ 0

-- The branches.
when_iff : (b : Bool) (e : Event) (r : TestRun) → (when b e r).status ≡ r.status
unfolding after
when_iff true e r = refl
when_iff false e r = refl

call_iff :
    (o : Op) (e : Event) (r : TestRun)
    → ((call_op o e r).status ≡ 0) ↔ ((op_succeeds o ≡ true) × (r.status ≡ 0))
unfolding after op_succeeds
call_iff none e r = (λ h. (refl, h), λ h. h.1)
call_iff (some true) e r = (λ h. (refl, h), λ h. h.1)
call_iff (some false) e r = (λ h. absurd (omega arith), λ h. cc)

branch_iff :
    (b : Bool) (r : TestRun)
    → ((if b then r else return 1).status ≡ 0) ↔ ((b ≡ true) × (r.status ≡ 0))
branch_iff true r = (λ h. (refl, h), λ h. h.1)
branch_iff false r = (λ h. absurd (omega arith), λ h. cc)

helper_iff :
    (p : Plan) (wanted : ℕ) (h : Helper) (r : TestRun)
    → ((start_helper p wanted h r).status ≡ 0) ↔ (Starts p wanted h × (r.status ≡ 0))
unfolding start_helper after
helper_iff p zero h r = (λ e. (inl refl, e), λ e. e.1)
helper_iff p (suc n) h r =
    let some_wanted : ltb 0 (suc n) ≡ true = ground arith in
    let i = branch_iff (p.thread_creates h) r in
    rw some_wanted (λ e. (inr (i.0 e).0, (i.0 e).1), λ e. i.1 (starts e.0, e.1))
  where
    starts : (suc n ≡ 0) ⊎ (p.thread_creates h ≡ true) → p.thread_creates h ≡ true
    starts (inl never) = absurd (omega arith)
    starts (inr ok) = ok

barrier_iff :
    (p : Plan) (m : Meeting) (count : ℕ) (r : TestRun)
    → ((start_barrier p m count r).status ≡ 0) ↔ ((p.barrier_inits m ≡ true) × (r.status ≡ 0))
unfolding start_barrier after
barrier_iff p m count r = branch_iff (p.barrier_inits m) r

join_workers-zero : (workers : List WorkerThread) (n : ℕ) → (join_workers workers n).0 ≡ 0
unfolding join_workers
join_workers-zero [] n = refl
join_workers-zero (w ∷ workers) n = join_workers-zero workers _

-- The workers: none fails to be created or initialised, and none sets the error.
abbrev NoneFails : List WorkerThread → Type 0
NoneFails workers =
    ((create_workers workers).1 ≡ 0)
    × ((init_fails workers ≡ false) × (any_error true workers ≡ false))

NoneFails-AllPass : (workers : List WorkerThread) → NoneFails workers → AllPass workers
unfolding create_workers init_fails any_error worker_thread
NoneFails-AllPass [] h = tt
NoneFails-AllPass (w ∷ workers) (created, (inits, errors)) = elim (Bool-cases w.created) [
  | inr missing ↦ absurd (ground (arith, created, missing))
  | inl made ↦ elim (Bool-cases (op_succeeds w.thread_init)) [
    | inr bad ↦ absurd (ground (arith, inits, bad))
    | inl good ↦ elim (Bool-cases (w.thread_run == 0)) [
      | inr bad ↦ absurd (ground (arith, errors, good, bad))
      | inl ran ↦ (
        (made, (good, ground (arith, ran))),
        NoneFails-AllPass workers (
          ground (arith, created, made),
          (ground (arith, inits, good), ground (arith, errors, good, ran)),
        ),
      )
    ]
  ]
]

AllPass-NoneFails : (workers : List WorkerThread) → AllPass workers → NoneFails workers
unfolding create_workers init_fails any_error worker_thread
AllPass-NoneFails [] h = (refl, (refl, refl))
AllPass-NoneFails (w ∷ workers) ((made, (good, ran)), rest) =
    let (created, (inits, errors)) = AllPass-NoneFails workers rest in
    rw (made, good, ran) (created, (inits, errors))

-- The stages, from the last to the first.
flag_iff : (b : Bool) → IsZero (return (if b then 1 else 0)) ↔ (b ≡ false)
flag_iff true = (λ h. absurd (omega arith), λ h. absurd (grind arith))
flag_iff false = (λ h. refl, λ h. refl)

finalize_iff : (p : Plan) → ((finalize p).status ≡ 0) ↔ (has_error p ≡ false)
unfolding finalize
finalize_iff p = rw (when_iff, when_iff, when_iff) (flag_iff (has_error p))

terminate_helpers_iff : (p : Plan) → ((terminate_helpers p).status ≡ 0) ↔ (has_error p ≡ false)
unfolding terminate_helpers
terminate_helpers_iff p = rw (when_iff, when_iff, when_iff) (finalize_iff p)

wind_up_iff :
    (p : Plan) → ((wind_up p).status ≡ 0) ↔ ((op_succeeds p.cleanup ≡ true) × (has_error p ≡ false))
unfolding wind_up after
wind_up_iff p =
    let last = terminate_helpers_iff p in
    let c = call_iff p.cleanup Event.calls_cleanup (terminate_helpers p) in
    rw (join_workers-zero p.workers (length p.workers))
      (λ h. ((c.0 h).0, last.0 (c.0 h).1), λ h. c.1 (h.0, last.1 h.1))

-- What the barrier of the workers needs, and what the joining of the workers shows.
threads_started_iff :
    (p : Plan) → (threads_started p ≡ true) ↔ ((p.early ≡ false) × (init_fails p.workers ≡ false))
unfolding threads_started
threads_started_iff p = nor_iff p.early (init_fails p.workers)
  where
    nor_iff : (a b : Bool) → (not (a || b) ≡ true) ↔ ((a ≡ false) × (b ≡ false))
    nor_iff true b = (λ h. absurd (grind arith), λ h. absurd (grind arith))
    nor_iff false true = (λ h. absurd (grind arith), λ h. absurd (grind arith))
    nor_iff false false = (λ h. (refl, refl), λ h. refl)

error_iff :
    (p : Plan)
    → (has_error p ≡ false)
      ↔ ((p.early ≡ false) × ((p.late ≡ false) × (any_error (threads_started p) p.workers ≡ false)))
unfolding has_error
error_iff p = none_iff p.early p.late (any_error (threads_started p) p.workers)
  where
    none_iff :
        (a b c : Bool) → ((a || b || c) ≡ false) ↔ ((a ≡ false) × ((b ≡ false) × (c ≡ false)))
    none_iff true b c = (λ h. absurd (grind arith), λ h. absurd (grind arith))
    none_iff false true c = (λ h. absurd (grind arith), λ h. absurd (grind arith))
    none_iff false false c = (λ h. (refl, (refl, h)), λ h. h.1.1)

warm_up_iff :
    (p : Plan)
    → ((warm_up p).status ≡ 0)
      ↔ ((p.report_waits ≡ true) × ((op_succeeds p.cleanup ≡ true) × (has_error p ≡ false)))
unfolding warm_up after
warm_up_iff p = elim (Bool-cases (ltb 0 p.warmup_time)) [ inl e ↦ rw e meet | inr e ↦ rw e meet ]
  where
    meet :
        ((if p.report_waits then wind_up p else return 1).status ≡ 0)
        ↔ ((p.report_waits ≡ true) × ((op_succeeds p.cleanup ≡ true) × (has_error p ≡ false)))
    meet =
        let b = branch_iff p.report_waits (wind_up p) in
        let j = wind_up_iff p in (λ h. ((b.0 h).0, j.0 (b.0 h).1), λ h. b.1 (h.0, j.1 h.1))

-- The stages from the creation of the workers on.
abbrev pub Runs : Plan → Type 0
Runs p =
    ((create_workers p.workers).1 ≡ 0)
    × ((threads_started p ≡ true)
        × ((p.report_waits ≡ true) × ((op_succeeds p.cleanup ≡ true) × (has_error p ≡ false))))

start_workers_iff : (p : Plan) → ((start_workers p).status ≡ 0) ↔ Runs p
unfolding start_workers after
start_workers_iff p = go (create_workers p.workers).1 refl
  where
    meet : TestRun
    meet = after (Event.waits worker_barrier) (if threads_started p then warm_up p else return 1)

    meets : (meet.status ≡ 0) ↔ ((threads_started p ≡ true) × ((warm_up p).status ≡ 0))
    meets = branch_iff (threads_started p) (warm_up p)

    go :
        (status : ℕ)
        → (create_workers p.workers).1 ≡ status
        → ((if status == 0
              then when (ltb 0 p.warmup_time) (Event.sets_max_events 0) meet
              else return status).status
            ≡ 0)
          ↔ Runs p
    go zero e =
        let w = warm_up_iff p in
        rw when_iff (λ h. (e, ((meets.0 h).0, w.0 (meets.0 h).1)), λ h. meets.1 (h.1.0, w.1 h.1.1))
    go (suc n) e = (λ h. absurd (grind arith), λ h. absurd (omega (arith, h.0)))

workers_iff :
    (p : Plan)
    → AllPass p.workers ↔ (
        (((create_workers p.workers).1 ≡ 0))
        × ((init_fails p.workers ≡ false) × (any_error true p.workers ≡ false)))
workers_iff p = (AllPass-NoneFails p.workers, NoneFails-AllPass p.workers)

both : {A B C : Type 0} → (B ↔ C) → (A × B) ↔ (A × C)
both i = (λ h. (h.0, i.0 h.1), λ h. (h.0, i.1 h.1))

then_iff : {A B C P : Type 0} → (A ↔ (P × B)) → (B ↔ C) → A ↔ (P × C)
then_iff i j = (λ h. ((i.0 h).0, j.0 (i.0 h).1), λ h. i.1 (h.0, j.1 h.1))

-- All the stages, in order.
abbrev pub Stages : Plan → Type 0
Stages p =
    (op_succeeds p.init ≡ true)
    × ((op_succeeds p.prepare ≡ true)
        × ((p.barrier_inits worker_barrier ≡ true)
            × ((p.barrier_inits report_barrier ≡ true)
                × (Starts p p.report_interval report_thread
                    × (Starts p p.tx_rate eventgen_thread
                        × (Starts p p.n_checkpoints checkpoints_thread × Runs p))))))

run_test_iff : (p : Plan) → ((run_test p).status ≡ 0) ↔ Stages p
unfolding run_test
run_test_iff p = then_iff (call_iff p.init _ _) (
    then_iff (call_iff p.prepare _ _) (
      then_iff (barrier_iff p worker_barrier (u32 (1 + length p.workers + one_if p.tx_rate)) _) (
        then_iff
          (barrier_iff p report_barrier
            (u32 (1 + one_if p.report_interval + one_if p.n_checkpoints)) _)
          (then_iff (helper_iff p p.report_interval report_thread _) (
            then_iff (helper_iff p p.tx_rate eventgen_thread _) (
              then_iff (helper_iff p p.n_checkpoints checkpoints_thread _)
                (start_workers_iff p)))))))

Stages-Succeeds : (p : Plan) → Stages p → Succeeds p
Stages-Succeeds p (i, (pr, (wm, (rm, (re, (ge, (ch, (cr, (st, (rw_, (cl, er))))))))))) =
    let started = (threads_started_iff p).0 st in
    let errors = (error_iff p).0 er in
    record {
      init = i;
      prepare = pr;
      worker_meeting = wm;
      report_meeting = rm;
      reporter = re;
      generator = ge;
      checkpointer = ch;
      workers =
          (workers_iff p).1
            (cr, (started.1, subst (λ b. any_error b p.workers ≡ false) st errors.1.1));
      early = errors.0;
      late = errors.1.0;
      report_waits = rw_;
      cleanup = cl;
    }

Succeeds-Stages : (p : Plan) → Succeeds p → Stages p
Succeeds-Stages p s =
    let w = (workers_iff p).0 s.workers in
    let st = (threads_started_iff p).1 (s.early, w.1.0) in
    let er = (error_iff p).1 (s.early, (s.late, rw st w.1.1)) in
    (
      s.init,
      (
        s.prepare,
        (
          s.worker_meeting,
          (
            s.report_meeting,
            (
              s.reporter,
              (s.generator, (s.checkpointer, (w.0, (st, (s.report_waits, (s.cleanup, er)))))),
            ),
          ),
        ),
      ),
    )

-- run_test returns 0 exactly if nothing that it needs fails: the operations init, prepare and
-- cleanup of the test that are there return 0, both barriers are initialised, each helper that is
-- wanted is created, every worker is created, has a thread_init that is missing or returns 0, and a
-- thread_run that returns 0, no other thread sets the error, and the wait at the report barrier
-- does not fail.
pub run_test-zero : (p : Plan) → ((run_test p).status ≡ 0) ↔ Succeeds p
run_test-zero p =
    (λ h. Stages-Succeeds p ((run_test_iff p).0 h), λ s. (run_test_iff p).1 (Succeeds-Stages p s))

-- ===== src/Main/Barriers.antt =====
-- How many threads the barriers of run_test (src/sysbench.c) are initialised for, and how many
-- come.
use sysbench.Prelude.{
  ℕ, u32, ◌<◌, ◌^◌, zero, suc, ◌+◌, ◌≡◌, refl, Bool, true, false, List, [], ◌∷◌, arith, ltb, ◌==◌,
  ◌||◌, if◌then◌else◌, Bool-cases, length, not, inl, inr, some, none, ◌&&◌,
}
use sysbench.Main.Phases.{
  Op, WorkerThread, create_workers, join_workers, Helper, report_thread, eventgen_thread,
  checkpoints_thread, Meeting, worker_barrier, report_barrier, Event, Plan, TestRun, after,
  finalize, terminate_helpers, wind_up, warm_up, start_workers, start_helper, start_barrier,
  run_test, when, call_op, return, one_if, has_error, threads_started,
}

-- Whether a helper comes to its barrier: report_thread_proc and checkpoints_thread_proc return
-- before it when Lua is loaded and sb_lua_report_thread_init does not return 0; eventgen_thread_proc
-- always comes.
unfoldable pub helper_waits : Bool → (Helper → ℕ) → Helper → Bool
helper_waits lua_loaded lua_init eventgen_thread = true
helper_waits lua_loaded lua_init report_thread =
    not (lua_loaded && not (lua_init report_thread == 0))
helper_waits lua_loaded lua_init checkpoints_thread =
    not (lua_loaded && not (lua_init checkpoints_thread == 0))

pub helper_waits-initialised :
    (lua_loaded : Bool) (lua_init : Helper → ℕ)
    → lua_init report_thread ≡ 0
    → lua_init checkpoints_thread ≡ 0
    → (h : Helper) → helper_waits lua_loaded lua_init h ≡ true
unfolding helper_waits
helper_waits-initialised lua_loaded lua_init r c report_thread = ground arith
helper_waits-initialised lua_loaded lua_init r c checkpoints_thread = ground arith
helper_waits-initialised lua_loaded lua_init r c eventgen_thread = refl

abbrev if_arrives : Bool → ℕ
if_arrives true = 1
if_arrives false = 0

-- The count that an event initialises a barrier with.
counts : Event → Meeting → ℕ
counts (Event.inits worker_barrier n) worker_barrier = n
counts (Event.inits report_barrier n) report_barrier = n
counts e m = 0

-- Whether an event is the main thread's wait at a barrier.
is_wait : Event → Meeting → Bool
is_wait (Event.waits worker_barrier) worker_barrier = true
is_wait (Event.waits report_barrier) report_barrier = true
is_wait e m = false

unfoldable pub expected : Meeting → List Event → ℕ
unfolding counts
expected m [] = 0
expected m (e ∷ events) = counts e m + expected m events

unfoldable pub meets : Meeting → List Event → Bool
unfolding is_wait
meets m [] = false
meets m (e ∷ events) = is_wait e m || meets m events

-- By which helpers come to their barriers.
module _ (arrives : Helper → Bool) where
  -- The threads that an event sends to a barrier: the main thread, workers or a helper that comes.
  comes : Event → Meeting → ℕ
  comes (Event.creates eventgen_thread) worker_barrier = if_arrives (arrives eventgen_thread)
  comes (Event.creates report_thread) report_barrier = if_arrives (arrives report_thread)
  comes (Event.creates checkpoints_thread) report_barrier = if_arrives (arrives checkpoints_thread)
  comes (Event.creates_workers n) worker_barrier = n
  comes (Event.waits worker_barrier) worker_barrier = 1
  comes (Event.waits report_barrier) report_barrier = 1
  comes e m = 0

  unfoldable pub participants : Meeting → List Event → ℕ
  unfolding comes
  participants m [] = 0
  participants m (e ∷ events) = comes e m + participants m events

  -- What is counted when the main thread waits at m.
  Tally : Meeting → TestRun → ℕ → ℕ → Type 0
  Tally m r a c =
      meets m r.events ≡ true → (participants m r.events ≡ a) × (expected m r.events ≡ c)

  -- No event concerns m, except for a wait.
  Still : Meeting → TestRun → Type 0
  Still m r = (participants m r.events ≡ 0) × (expected m r.events ≡ 0)

  abbrev Quiet : Meeting → Event → Type 0
  Quiet m e = (comes e m ≡ 0) × ((counts e m ≡ 0) × (is_wait e m ≡ false))

  Still-return : (m : Meeting) (status : ℕ) → Still m (return status)
  unfolding Still participants expected
  Still-return m status = (refl, refl)

  Still-after :
      (m : Meeting) (e : Event) (r : TestRun) → Quiet m e → Still m r → Still m (after e r)
  unfolding Still participants expected after
  Still-after m e r q s = (omega (arith, q.0, s.0), omega (arith, q.1.0, s.1))

  Still-when :
      (m : Meeting) (b : Bool) (e : Event) (r : TestRun)
      → Quiet m e
      → Still m r
      → Still m (when b e r)
  Still-when m true e r q s = Still-after m e r q s
  Still-when m false e r q s = s

  Still-call_op :
      (m : Meeting) (o : Op) (e : Event) (r : TestRun)
      → Quiet m e
      → Still m r
      → Still m (call_op o e r)
  Still-call_op m none e r q s = s
  Still-call_op m (some true) e r q s = Still-after m e r q s
  Still-call_op m (some false) e r q s = Still-after m e (return 1) q (Still-return m 1)

  Still-branch :
      (m : Meeting) (b : Bool) (r : TestRun) (status : ℕ)
      → Still m r
      → Still m (if b then r else return status)
  Still-branch m true r status s = s
  Still-branch m false r status s = Still-return m status

  Tally-return : (m : Meeting) (status a c : ℕ) → Tally m (return status) a c
  unfolding Tally meets
  Tally-return m status a c h = absurd (grind arith)

  Tally-after :
      (m : Meeting) (e : Event) (r : TestRun) (a c : ℕ)
      → is_wait e m ≡ false
      → Tally m r a c
      → Tally m (after e r) (comes e m + a) (counts e m + c)
  unfolding Tally participants expected meets after
  Tally-after m e r a c no_wait t h =
      let rest = t (ground (arith, h, no_wait)) in (omega (arith, rest.0), omega (arith, rest.1))

  Tally-end :
      (m : Meeting) (e : Event) (status a c : ℕ)
      → is_wait e m ≡ false
      → Tally m (after e (return status)) a c
  unfolding Tally meets after
  Tally-end m e status a c no_wait h = absurd (grind arith)

  Tally-equal :
      (m : Meeting) (r : TestRun) (a a' c c' : ℕ)
      → a ≡ a'
      → c ≡ c'
      → Tally m r a c
      → Tally m r a' c'
  unfolding Tally
  Tally-equal m r a a' c c' ea ec t h =
      let rest = t h in (omega (arith, rest.0, ea), omega (arith, rest.1, ec))

  Tally-wait : (m : Meeting) (r : TestRun) → Still m r → Tally m (after (Event.waits m) r) 1 0
  unfolding Tally Still participants expected after comes counts
  Tally-wait worker_barrier r s h = (omega (arith, s.0), omega (arith, s.1))
  Tally-wait report_barrier r s h = (omega (arith, s.0), omega (arith, s.1))

  Tally-branch :
      (m : Meeting) (b : Bool) (r : TestRun) (status a c : ℕ)
      → Tally m r a c
      → Tally m (if b then r else return status) a c
  Tally-branch m true r status a c t = t
  Tally-branch m false r status a c t = Tally-return m status a c

  Tally-unchanged :
      (m : Meeting) (e : Event) (r : TestRun) (a c : ℕ)
      → Quiet m e
      → Tally m r a c
      → Tally m (after e r) a c
  unfolding Tally participants expected meets after
  Tally-unchanged m e r a c q t h =
      let rest = t (ground (arith, h, q.1.1)) in
      (omega (arith, rest.0, q.0), omega (arith, rest.1, q.1.0))

  Tally-when :
      (m : Meeting) (b : Bool) (e : Event) (r : TestRun) (a c : ℕ)
      → Quiet m e
      → Tally m r a c
      → Tally m (when b e r) a c
  Tally-when m true e r a c q t = Tally-unchanged m e r a c q t
  Tally-when m false e r a c q t = t

  Tally-call_op :
      (m : Meeting) (o : Op) (e : Event) (r : TestRun) (a c : ℕ)
      → Quiet m e
      → Tally m r a c
      → Tally m (call_op o e r) a c
  Tally-call_op m none e r a c q t = t
  Tally-call_op m (some true) e r a c q t = Tally-unchanged m e r a c q t
  Tally-call_op m (some false) e r a c q t =
      Tally-unchanged m e (return 1) a c q (Tally-return m 1 a c)

  -- From the joining of the workers on, nothing concerns the barriers.
  finalize-Still : (p : Plan) (m : Meeting) → Still m (finalize p)
  unfolding finalize comes counts is_wait
  finalize-Still p m =
      Still-when m (not (has_error p) && p.histogram) Event.prints_histogram _ (refl, (refl, refl))
        (Still-when m (not (has_error p)) Event.reports _ (refl, (refl, refl))
          (Still-when m p.has_done Event.calls_done _ (refl, (refl, refl))
            (Still-return m (if has_error p then 1 else 0))))

  terminate_helpers-Still : (p : Plan) (m : Meeting) → Still m (terminate_helpers p)
  unfolding terminate_helpers comes counts is_wait
  terminate_helpers-Still p m =
      Still-when m (p.was_created report_thread) (Event.terminates report_thread) _
        (refl, (refl, refl))
        (Still-when m (p.was_created eventgen_thread) (Event.terminates eventgen_thread) _
          (refl, (refl, refl))
          (Still-when m (p.was_created checkpoints_thread) (Event.terminates checkpoints_thread) _
            (refl, (refl, refl)) (finalize-Still p m)))

  wind_up-Still : (p : Plan) (m : Meeting) → Still m (wind_up p)
  unfolding wind_up comes counts is_wait
  wind_up-Still p m =
      let joined =
        after Event.stops_timers (call_op p.cleanup Event.calls_cleanup (terminate_helpers p)) in
      let status = (join_workers p.workers (length p.workers)).0 in
      Still-after m Event.joins_workers (if status == 0 then joined else return status)
        (refl, (refl, refl))
        (Still-branch m (status == 0) joined status (
          Still-after m Event.stops_timers _ (refl, (refl, refl))
            (Still-call_op m p.cleanup Event.calls_cleanup _ (refl, (refl, refl))
              (terminate_helpers-Still p m))))

  -- The wait at the report barrier, and the warm-up before it.
  warm_up-Still : (p : Plan) → Still worker_barrier (warm_up p)
  unfolding warm_up comes counts is_wait
  warm_up-Still p = elim (Bool-cases (ltb 0 p.warmup_time)) [
    | inl e ↦ rw e (
        Still-after worker_barrier (Event.sets_max_events p.max_events) _ (refl, (refl, refl))
          (Still-after worker_barrier Event.checkpoints _ (refl, (refl, refl)) meet))
    | inr e ↦ rw e meet
  ]
    where
      tail : TestRun
      tail = if p.report_waits then wind_up p else return 1

      meet : Still worker_barrier (after (Event.waits report_barrier) tail)
      meet =
          Still-after worker_barrier (Event.waits report_barrier) tail (refl, (refl, refl))
            (Still-branch worker_barrier p.report_waits (wind_up p) 1
              (wind_up-Still p worker_barrier))

  warm_up-Tally : (p : Plan) → Tally report_barrier (warm_up p) 1 0
  unfolding warm_up comes counts is_wait
  warm_up-Tally p = elim (Bool-cases (ltb 0 p.warmup_time)) [
    | inl e ↦ rw e (
        Tally-unchanged report_barrier (Event.sets_max_events p.max_events) _ 1 0
          (refl, (refl, refl))
          (Tally-unchanged report_barrier Event.checkpoints _ 1 0 (refl, (refl, refl)) meet))
    | inr e ↦ rw e meet
  ]
    where
      tail : TestRun
      tail = if p.report_waits then wind_up p else return 1

      meet : Tally report_barrier (after (Event.waits report_barrier) tail) 1 0
      meet = Tally-wait report_barrier tail (
          Still-branch report_barrier p.report_waits (wind_up p) 1 (wind_up-Still p report_barrier))

  -- From the creation of the workers on.
  create_workers-all :
      (workers : List WorkerThread)
      → (create_workers workers).1 ≡ 0
      → (create_workers workers).0 ≡ length workers
  unfolding create_workers
  create_workers-all [] h = refl
  create_workers-all (w ∷ workers) h = elim (Bool-cases w.created) [
    | inl made ↦
        let rest = create_workers-all workers (ground (arith, h, made)) in
        rw made (omega (arith, rest))
    | inr missing ↦ absurd (ground (arith, h, missing))
  ]

  -- The workers at a barrier.
  workers_at : Plan → Meeting → ℕ
  workers_at p worker_barrier = 1 + length p.workers
  workers_at p report_barrier = 1

  start_workers-Tally : (p : Plan) (m : Meeting) → Tally m (start_workers p) (workers_at p m) 0
  unfolding start_workers comes counts is_wait workers_at
  start_workers-Tally p m = go m (create_workers p.workers).1 refl
    where
      tail : TestRun
      tail = if threads_started p then warm_up p else return 1

      meet : TestRun
      meet = after (Event.waits worker_barrier) tail

      failed : (n : ℕ) → (suc n == 0) ≡ false
      failed n = ground arith

      created : ℕ
      created = (create_workers p.workers).0

      go :
          (m : Meeting) (status : ℕ)
          → (create_workers p.workers).1 ≡ status
          → Tally m
              (after (Event.creates_workers created) (
                if status == 0
                then when (ltb 0 p.warmup_time) (Event.sets_max_events 0) meet
                else return status))
              (workers_at p m)
              0
      go worker_barrier zero e =
          let all = create_workers-all p.workers e in
          let waits_here =
            Still-branch worker_barrier (threads_started p) (warm_up p) 1 (warm_up-Still p) in
          let t = Tally-after worker_barrier (Event.creates_workers created) _ 1 0 refl (
            Tally-when worker_barrier (ltb 0 p.warmup_time) (Event.sets_max_events 0) meet 1 0
              (refl, (refl, refl)) (Tally-wait worker_barrier tail waits_here)) in
          Tally-equal worker_barrier _ (created + 1) _ (0 + 0) 0 (omega (arith, all)) (omega arith)
            t
      go report_barrier zero e =
          Tally-unchanged report_barrier (Event.creates_workers created) _ 1 0 (refl, (refl, refl))
            (Tally-when report_barrier (ltb 0 p.warmup_time) (Event.sets_max_events 0) meet 1 0
              (refl, (refl, refl))
              (Tally-unchanged report_barrier (Event.waits worker_barrier) tail 1 0
                (refl, (refl, refl))
                (Tally-branch report_barrier (threads_started p) (warm_up p) 1 1 0
                  (warm_up-Tally p))))
      go worker_barrier (suc n) e = rw (failed n) (
          Tally-end worker_barrier (Event.creates_workers created) (suc n)
            (workers_at p worker_barrier) 0 refl)
      go report_barrier (suc n) e = rw (failed n) (
          Tally-end report_barrier (Event.creates_workers created) (suc n)
            (workers_at p report_barrier) 0 refl)

  -- The helpers and the barriers themselves.
  helpers_at : ℕ → Helper → Meeting → ℕ
  helpers_at wanted h m = if ltb 0 wanted then comes (Event.creates h) m else 0

  start_helper-Tally :
      (p : Plan) (wanted : ℕ) (h : Helper) (m : Meeting) (r : TestRun) (a c : ℕ)
      → Tally m r a c
      → Tally m (start_helper p wanted h r) (helpers_at wanted h m + a) c
  unfolding start_helper helpers_at counts is_wait
  start_helper-Tally p wanted h m r a c t = elim (Bool-cases (ltb 0 wanted)) [
    | inl e ↦ rw e (
        Tally-equal m _ (comes (Event.creates h) m + a) (comes (Event.creates h) m + a)
          (counts (Event.creates h) m + c) c refl (no_count h m)
          (Tally-after m (Event.creates h) _ a c (no_wait h m)
            (Tally-branch m (p.thread_creates h) r 1 a c t)))
    | inr e ↦ rw e (Tally-equal m r a (0 + a) c c (omega arith) refl t)
  ]
    where
      no_count : (h : Helper) (m : Meeting) → counts (Event.creates h) m + c ≡ c
      no_count report_thread m = omega arith
      no_count eventgen_thread m = omega arith
      no_count checkpoints_thread m = omega arith

      no_wait : (h : Helper) (m : Meeting) → is_wait (Event.creates h) m ≡ false
      no_wait report_thread m = refl
      no_wait eventgen_thread m = refl
      no_wait checkpoints_thread m = refl

  start_barrier-Tally :
      (p : Plan) (m' : Meeting) (n : ℕ) (m : Meeting) (r : TestRun) (a c : ℕ)
      → Tally m r a c
      → Tally m (start_barrier p m' n r) a (counts (Event.inits m' n) m + c)
  unfolding start_barrier comes is_wait
  start_barrier-Tally p m' n m r a c t =
      Tally-equal m _ (comes (Event.inits m' n) m + a) a (counts (Event.inits m' n) m + c) _
        (omega arith) refl
        (Tally-after m (Event.inits m' n) (if p.barrier_inits m' then r else return 1) a c refl
          (Tally-branch m (p.barrier_inits m') r 1 a c t))

  -- run_test as a whole.
  run_test-Tally :
      (p : Plan) (m : Meeting)
      → Tally m
          (run_test p)
          (helpers_at p.report_interval report_thread m
            + (helpers_at p.tx_rate eventgen_thread m
                + (helpers_at p.n_checkpoints checkpoints_thread m + workers_at p m)))
          (counts (Event.inits worker_barrier (u32 (1 + length p.workers + one_if p.tx_rate))) m
            + (counts
                  (Event.inits report_barrier
                    (u32 (1 + one_if p.report_interval + one_if p.n_checkpoints)))
                  m
                + 0))
  unfolding run_test comes counts is_wait
  run_test-Tally p m =
      Tally-call_op m p.init Event.calls_init _ _ _ (refl, (refl, refl))
        (Tally-call_op m p.prepare Event.calls_prepare _ _ _ (refl, (refl, refl))
          (start_barrier-Tally p worker_barrier _ m _ _ _ (
            start_barrier-Tally p report_barrier _ m _ _ _ (
              start_helper-Tally p p.report_interval report_thread m _ _ _ (
                start_helper-Tally p p.tx_rate eventgen_thread m _ _ _ (
                  start_helper-Tally p p.n_checkpoints checkpoints_thread m _ _ _
                    (start_workers-Tally p m)))))))

  -- With fewer than 2^32 - 2 workers, if every helper comes to its barrier, when the main thread comes to wait at one of the two barriers,
  -- as many threads have been sent to it, the main thread included, as the barrier was initialised
  -- for: for the worker barrier the workers and the event generator if it is wanted, for the report
  -- barrier the reporting threads that are wanted.
  pub participants-run_test :
      (p : Plan) (m : Meeting)
      → length p.workers + 2 < 2 ^ 32
      → ((h : Helper) → arrives h ≡ true)
      → meets m (run_test p).events ≡ true
      → participants m (run_test p).events ≡ expected m (run_test p).events
  unfolding Tally helpers_at workers_at comes counts
  participants-run_test p worker_barrier few all h =
      let t = run_test-Tally p worker_barrier h in ground (arith, t.0, t.1, all eventgen_thread)
  participants-run_test p report_barrier few all h =
      let t = run_test-Tally p report_barrier h in
      ground (arith, t.0, t.1, all report_thread, all checkpoints_thread)

  -- The count is a word.
  pub expected-word :
      (p : Plan) (m : Meeting)
      → meets m (run_test p).events ≡ true
      → expected m (run_test p).events < 2 ^ 32
  unfolding Tally counts
  expected-word p worker_barrier h = let t = run_test-Tally p worker_barrier h in omega (arith, t.1)
  expected-word p report_barrier h = let t = run_test-Tally p report_barrier h in omega (arith, t.1)

-- ===== src/Main/Meetings.antt =====
-- The threads of run_test (src/sysbench.c) at its barriers (src/sb_barrier.c).
use sysbench.Prelude.{
  ℕ, ◌+◌, ◌<◌, ◌^◌, ◌≡◌, ◌∙◌, sym, subst, Bool, true, Option, some, length, replicate, tally,
}
use sysbench.Barrier.{init, Barrier, idle}
use sysbench.Barrier.System.{System, Reach, Steps}
use sysbench.Barrier.Round.{is_idle}
use sysbench.Barrier.Init.{init-IsFresh}
use sysbench.Barrier.Results.{is_inside, all_return}
use sysbench.Main.Phases.{Helper, report_thread, checkpoints_thread, Meeting, Plan, run_test}
use sysbench.Main.Barriers.{
  helper_waits, helper_waits-initialised, participants, expected, meets, participants-run_test,
  expected-word,
}

-- The threads that run_test sends to a barrier and that come there, none of which has called
-- sb_barrier_wait yet; `lua_init` is what sb_lua_report_thread_init returns.
abbrev pub gathering :
    {W : Type 0} → Bool → (Helper → ℕ) → Plan → Meeting → Barrier W → W → System W
gathering lua_loaded lua_init p m b w = record {
  barrier = b;
  world = w;
  threads = replicate (participants (helper_waits lua_loaded lua_init) m (run_test p).events) idle;
}

-- With fewer than 2^32 - 2 workers, if sb_lua_report_thread_init returns 0 in the reporting threads,
-- when the main thread comes to wait at a barrier, which sb_barrier_init has made with the count
-- that run_test gives it: from every state that the threads sent to the barrier reach, with spurious
-- wake-ups or not, steps without a spurious wake-up lead to a state in which each of them has
-- returned from sb_barrier_wait.
pub run_test-gathers :
    {W : Type 0} (lua_loaded : Bool) (lua_init : Helper → ℕ) (p : Plan) (m : Meeting)
    (callback : Option (W → W × Bool)) (b : Barrier W) (w : W) (s : System W)
    → lua_init report_thread ≡ 0
    → lua_init checkpoints_thread ≡ 0
    → length p.workers + 2 < 2 ^ 32
    → meets m (run_test p).events ≡ true
    → init (expected m (run_test p).events) callback ≡ some b
    → Reach (gathering lua_loaded lua_init p m b w) s
    → (t : System W) × Steps s t × (tally is_idle t.threads ≡ 0) × (tally is_inside t.threads ≡ 0)
run_test-gathers lua_loaded lua_init p m callback b w s reports checks few waits made reach =
    let arrives = helper_waits lua_loaded lua_init in
    let come = helper_waits-initialised lua_loaded lua_init reports checks in
    let (fresh, count) =
      init-IsFresh (expected m (run_test p).events) callback b (expected-word arrives p m waits)
        made in
    let all = participants-run_test arrives p m few come waits ∙ sym count in
    all_return b w s fresh (
      subst (λ n. Reach (record { barrier = b; world = w; threads = replicate n idle }) s) all
        reach)

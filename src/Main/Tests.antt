-- ===== src/Main/Tests.antt =====
-- Tests and witnesses of main and run_test (src/sysbench.c).
use sysbench.Prelude.{
  ℕ, tally, arith, ◌≡◌, ◌↔◌, refl, true, false, Option, none, some, List, [], ◌∷◌, inl,
}
use sysbench.Prelude.Int.{pos}
use sysbench.Prelude.Text.{Str, codes}
use sysbench.Main.Phases.{WorkerThread, Helper, worker_barrier, Plan, run_test}
use sysbench.Main.Status.{Succeeds, run_test-zero}
use sysbench.Barrier.{init, Barrier}
use sysbench.Barrier.System.{System, here, Steps}
use sysbench.Barrier.Round.{is_idle}
use sysbench.Barrier.Results.{is_inside}
use sysbench.Main.Barriers.{expected, meets}
use sysbench.Main.Meetings.{gathering, run_test-gathers}
use sysbench.Main.Dispatch.{Test, find_test, World, main}
use sysbench.Main.Order.{Orderly}
use sysbench.Main.RunCommand.{AsksToRun, main-run}

abbrev good : WorkerThread
good = record { created = true; thread_init = some true; thread_run = 0; has_done = true }

abbrev bad : WorkerThread
bad = record { created = true; thread_init = none; thread_run = 1; has_done = true }

-- Two workers and a reporting thread.
abbrev plan_of : List WorkerThread → Plan
plan_of workers = record {
  init = some true;
  prepare = none;
  cleanup = none;
  has_done = true;
  workers = workers;
  tx_rate = 0;
  report_interval = 1;
  n_checkpoints = 0;
  warmup_time = 0;
  max_events = 10;
  histogram = false;
  barrier_inits = λ m. true;
  thread_creates = λ h. true;
  report_waits = true;
  was_created = λ h. true;
  early = false;
  late = false;
}

abbrev two_good : Plan
two_good = plan_of (good ∷ good ∷ [])

two_good-run : (run_test two_good).status ≡ 0
unfolding run_test
two_good-run = refl

one_bad-run : (run_test (plan_of (good ∷ bad ∷ []))).status ≡ 1
unfolding run_test
one_bad-run = refl

run_test-zero_example : ((run_test two_good).status ≡ 0) ↔ Succeeds two_good
run_test-zero_example = run_test-zero two_good

two_good-meets : meets worker_barrier (run_test two_good).events ≡ true
unfolding meets run_test
two_good-meets = refl

two_good-expected : expected worker_barrier (run_test two_good).events ≡ 3
unfolding expected run_test
two_good-expected = refl

abbrev three : Barrier ℕ
three = record { init_count = 3; count = 3; callback = none; serial = 0; error = false }

three-init : init (expected worker_barrier (run_test two_good).events) none ≡ some three
unfolding init expected run_test
three-init = refl

-- What sb_lua_report_thread_init returns.
abbrev lua_fine : Helper → ℕ
lua_fine h = 0

run_test-gathers_example :
    (t : System ℕ) × Steps (gathering true lua_fine two_good worker_barrier three 0) t
    × (tally is_idle t.threads ≡ 0)
    × (tally is_inside t.threads ≡ 0)
run_test-gathers_example =
    run_test-gathers true lua_fine two_good worker_barrier none three 0
      (gathering true lua_fine two_good worker_barrier three 0) refl refl (omega arith)
      two_good-meets three-init here

abbrev cpu : Test
cpu = record {
  sname = codes "cpu";
  has_help = false;
  has_args = true;
  prepare_command = none;
  cleanup_command = none;
  qgen_command = none;
  plan = two_good;
}

abbrev asks : List Test → Option Str → Option Str → World
asks tests testname cmdname = record {
  log_registers = true;
  tests_register = true;
  arguments = some (testname, cmdname);
  help_flag = false;
  version_flag = false;
  inits = true;
  log_inits = true;
  counters_init = true;
  tests = tests;
  script = λ name. none;
  parses = λ t. true;
  lua_loaded = false;
  custom_command = λ name. none;
}

abbrev cpu_run : World
cpu_run = asks (cpu ∷ []) (some (codes "cpu")) (some (codes "run"))

cpu_run-code : (main cpu_run).code ≡ pos 0
unfolding main run_test
cpu_run-code = refl

-- A command that is missing ends the program without a release.
cpu-no_command : (main (asks (cpu ∷ []) (some (codes "cpu")) none)).code ≡ pos 1
unfolding main
cpu-no_command = refl

-- A command that the test does not have.
cpu-prepare : (main (asks (cpu ∷ []) (some (codes "cpu")) (some (codes "prepare")))).code ≡ pos 1
unfolding main
cpu-prepare = refl

cpu_run-AsksToRun : AsksToRun cpu_run cpu (codes "cpu")
unfolding find_test
cpu_run-AsksToRun = record {
  logger = refl;
  registration = refl;
  arguments = refl;
  no_help = refl;
  no_version = refl;
  init = refl;
  log_init = refl;
  counters_init = refl;
  not_stdin = refl;
  test = refl;
  options = refl;
  not_custom = inl refl;
}

main-run_example : ((main cpu_run).code ≡ pos 0) ↔ Succeeds two_good
main-run_example = main-run cpu_run cpu (codes "cpu") cpu_run-AsksToRun

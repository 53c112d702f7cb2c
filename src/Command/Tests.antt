-- ===== src/Command/Tests.antt =====
-- The command line at concrete arguments.
use mathlib.Core.Option
use sysbench.Prelude.{◌≡◌, refl, false, none, some, List, [], ◌∷◌, u32_mod, ◌-◌}
use sysbench.Prelude.Text.{Str, codes}
use sysbench.Options.Table.{Opt, int, find_option}
use sysbench.Options.Size.{to_int}
use sysbench.Options.Set.{Files, Arg, get_value_int}
use sysbench.Command.{Line}
use sysbench.Command.Init.{init_limits}

abbrev no_files : Files
no_files name = none

abbrev option : Str → List Str → Opt
option name values = record {
  name = name;
  type = int;
  values = values;
  ignore = false;
  validate = none;
}

abbrev arg : Str → Str → Arg
arg name value = record { name = name; value = some value; type = int; validate = none }

-- sysbench cpu --threads=4 --cpu-max-prime=9 run
abbrev line_args : List Str
line_args = codes "cpu" ∷ codes "--threads=4" ∷ codes "--cpu-max-prime=9" ∷ codes "run" ∷ []

abbrev threads_arg : List Arg
threads_arg = arg (codes "threads") (codes "1") ∷ []

abbrev prime_arg : List Arg
prime_arg = arg (codes "cpu-max-prime") (codes "10000") ∷ []

-- What parse_general_arguments leaves of the line.
abbrev general_line : Line
general_line = record {
  testname = some (codes "cpu");
  cmdname = some (codes "run");
  argv = some (codes "cpu") ∷ none ∷ some (codes "--cpu-max-prime=9") ∷ some (codes "run") ∷ [];
}

abbrev limits_opts : Opt → List Opt
limits_opts threads =
    threads
    ∷ option (codes "thread_init_timeout") (codes "30" ∷ [])
    ∷ option (codes "events") (codes "0" ∷ [])
    ∷ option (codes "warmup_time") (codes "5" ∷ [])
    ∷ option (codes "time") (codes "10" ∷ [])
    ∷ []

-- A negative number of threads is taken as an unsigned one.
minus_one_thread :
    Option.map
      (λ l. l.threads)
      (init_limits (limits_opts (option (codes "threads") (codes "-1" ∷ []))))
    ≡ some (u32_mod - 1)
unfolding init_limits get_value_int to_int find_option
minus_one_thread = refl

abbrev checkpoints_opts : List Opt
checkpoints_opts =
    option (codes "report_checkpoints") (codes "30" ∷ codes "10" ∷ codes "20" ∷ []) ∷ []

-- ===== src/Main/Dispatch.antt =====
-- src/sysbench.c: main and find_test. What the calls of other parts return is an argument; the
-- calls are kept in order.
use sysbench.Prelude.{Bool, Option, none, some, List, [], ◌∷◌, ◌==◌, if◌then◌else◌}
use sysbench.Prelude.Int.{ℤ, pos}
use sysbench.Prelude.Text.{Str, codes, str_eq}
use sysbench.Main.Phases.{Plan, run_test}

-- sb_test_t: the name, what the built-in commands return if there are any, whether there are
-- options, and what run_test needs.
pub record Test : Type 0 where
  pub sname : Str
  pub has_help : Bool
  pub has_args : Bool
  pub prepare_command : Option ℤ
  pub cleanup_command : Option ℤ
  pub qgen_command : Option ℤ
  pub plan : Plan

unfoldable pub find_test : Str → List Test → Option Test
find_test name [] = none
find_test name (t ∷ tests) =
    let rest = find_test name tests in if str_eq t.sname name then some t else rest

pub data Call : Type 0 where
  options_init log_register register_tests parse_general prints_help prints_version : Call
  init log_init counters_init prints_header parse_test : Call
  load_lua : Option Str → Call
  complains : Call
  custom help options prepare cleanup run qgen : Call
  lua_done db_done counters_done log_done options_done rand_done thread_done : Call

-- What the calls return: true when a call succeeds, nothing when parse_general_arguments fails,
-- else testname and cmdname; custom_command returns nothing if the script has no such command.
pub record World : Type 0 where
  pub log_registers : Bool
  pub tests_register : Bool
  pub arguments : Option (Option Str × Option Str)
  pub help_flag : Bool
  pub version_flag : Bool
  pub inits : Bool
  pub log_inits : Bool
  pub counters_init : Bool
  pub tests : List Test
  pub script : Option Str → Option Test
  pub parses : Test → Bool
  pub lua_loaded : Bool
  pub custom_command : Str → Option ℤ

-- What main returns, and the calls.
pub record Exit : Type 0 where
  pub code : ℤ
  pub calls : List Call

abbrev pub stop : ℤ → Exit
stop code = record { code = code; calls = [] }

unfoldable pub make : Call → Exit → Exit
make c r = record r { calls = c ∷ r.calls }

-- A call that has to succeed.
unfoldable pub need : Call → Bool → Exit → Exit
unfolding make
need c ok r = make c (if ok then r else stop (pos 1))

-- From the label `end` on.
unfoldable pub release_all : World → List Call
release_all w =
    let rest : List Call =
      db_done ∷ counters_done ∷ log_done ∷ options_done ∷ rand_done ∷ thread_done ∷ [] in
    if w.lua_loaded then lua_done ∷ rest else rest

unfoldable pub end : World → ℤ → Exit
unfolding release_all
end w rc = record { code = rc; calls = release_all w }

-- A built-in command that the test may not implement.
unfoldable pub builtin : World → Call → Option ℤ → Exit
unfolding make end
builtin w c none = make complains (end w (pos 1))
builtin w c (some rc) = make c (end w rc)

-- The commands.
unfoldable pub command : World → Test → Str → Exit
unfolding make end builtin run_test
command w t name =
    if str_eq name (codes "help")
    then if t.has_help
      then make help (end w (pos 0))
      else if t.has_args
      then make options (end w (pos 0))
      else make complains (stop (pos 1))
    else if str_eq name (codes "prepare")
    then builtin w prepare t.prepare_command
    else if str_eq name (codes "cleanup")
    then builtin w cleanup t.cleanup_command
    else if str_eq name (codes "run")
    then make run (end w (if (run_test t.plan).status == 0 then pos 0 else pos 1))
    else if str_eq name (codes "qgen")
    then builtin w qgen t.qgen_command
    else make complains (end w (pos 1))

unfoldable pub custom_or : World → Option ℤ → Exit → Exit
unfolding make end
custom_or w none r = r
custom_or w (some rc) r = make custom (end w rc)

-- From current_test on.
unfoldable pub dispatch : World → Test → Str → Exit
unfolding need custom_or command
dispatch w t name =
    need parse_test (w.parses t)
      (custom_or w (if w.lua_loaded then w.custom_command name else none) (command w t name))

-- From the loading of a script on.
unfoldable pub loaded : World → Option Str → Option Test → Exit
unfolding dispatch
loaded w cmdname none = stop (pos 1)
loaded w none (some t) = stop (pos 0)
loaded w (some name) (some t) = dispatch w t name

unfoldable pub selected : World → Str → Option Str → Option Test → Exit
unfolding make dispatch loaded
selected w testname none (some t) = make complains (stop (pos 1))
selected w testname (some name) (some t) = dispatch w t name
selected w testname cmdname none =
    make (load_lua (some testname)) (loaded w cmdname (w.script (some testname)))

-- The selection of the test.
unfoldable pub select_test : World → Option Str → Option Str → Exit
unfolding make loaded selected find_test
select_test w none cmdname = make (load_lua none) (loaded w none (w.script none))
select_test w (some testname) cmdname =
    if str_eq testname (codes "-")
    then make (load_lua none) (loaded w none (w.script none))
    else selected w testname cmdname (find_test testname w.tests)

unfoldable pub with_arguments : World → Option (Option Str × Option Str) → Exit
unfolding make need select_test
with_arguments w none = stop (pos 1)
with_arguments w (some (testname, cmdname)) =
    if w.help_flag
    then make prints_help (stop (pos 0))
    else if w.version_flag
    then make prints_version (stop (pos 0))
    else need init w.inits (
        need log_init w.log_inits (
          need Call.counters_init w.counters_init
            (make prints_header (select_test w testname cmdname))))

unfoldable pub main : World → Exit
unfolding make need with_arguments
main w = make options_init (
    need log_register w.log_registers
      (need register_tests w.tests_register (make parse_general (with_arguments w w.arguments))))

-- ===== src/Main/Order.antt =====
-- The order in which main (src/sysbench.c) may make its calls, by what they return.
use sysbench.Prelude.{ℕ, suc, ◌≡◌, ◌≢◌, Bool, true, false, Option, none, some, List, [], ◌∷◌, ◌⊎◌}
use sysbench.Prelude.Text.{Str, codes}
use sysbench.Main.Dispatch.{Test, find_test, Call, World}

abbrev pub IsCommand : Call → Type 0
IsCommand c =
    (c ≡ Call.custom)
    ⊎ ((c ≡ Call.help)
        ⊎ ((c ≡ Call.options)
            ⊎ ((c ≡ Call.prepare) ⊎ ((c ≡ Call.cleanup) ⊎ ((c ≡ Call.run) ⊎ (c ≡ Call.qgen))))))

-- What sysbench is asked to do.
abbrev pub command_of : Option (Option Str × Option Str) → Option Str
command_of none = none
command_of (some (testname, cmdname)) = cmdname

abbrev pub asked : World → Option Str
asked w = command_of w.arguments

-- The place of a call before the command in the order of these calls.
unfoldable pub place : Call → ℕ
place Call.options_init = 0
place Call.log_register = 1
place Call.register_tests = 2
place Call.parse_general = 3
place Call.prints_help = 4
place Call.prints_version = 4
place Call.init = 5
place Call.log_init = 6
place Call.counters_init = 7
place Call.prints_header = 8
place (Call.load_lua name) = 9
place Call.parse_test = 10
place c = 12

-- When a call lets main go on, by what the calls return.
unfoldable pub GoesOn : World → Call → Type 0
GoesOn w Call.options_init = Unit {0}
GoesOn w Call.log_register = w.log_registers ≡ true
GoesOn w Call.register_tests = w.tests_register ≡ true
GoesOn w Call.parse_general = w.arguments ≢ none
GoesOn w Call.init = w.inits ≡ true
GoesOn w Call.log_init = w.log_inits ≡ true
GoesOn w Call.counters_init = w.counters_init ≡ true
GoesOn w Call.prints_header = Unit {0}
GoesOn w (Call.load_lua name) = (name ≢ none) × (w.script name ≢ none) × (asked w ≢ none)
GoesOn w Call.parse_test = (t : Test) × (w.parses t ≡ true)
GoesOn w c = ⊥

-- When a call is the last one, with nothing released.
unfoldable pub Ends : World → Call → Type 0
Ends w Call.log_register = w.log_registers ≡ false
Ends w Call.register_tests = w.tests_register ≡ false
Ends w Call.parse_general = w.arguments ≡ none
Ends w Call.prints_help = w.help_flag ≡ true
Ends w Call.prints_version = (w.help_flag ≡ false) × (w.version_flag ≡ true)
Ends w Call.init = w.inits ≡ false
Ends w Call.log_init = w.log_inits ≡ false
Ends w Call.counters_init = w.counters_init ≡ false
Ends w (Call.load_lua name) = (name ≡ none) ⊎ ((w.script name ≡ none) ⊎ (asked w ≡ none))
Ends w Call.parse_test = (t : Test) × (w.parses t ≡ false)
Ends w c = ⊥

-- The calls that release everything, at the end.
abbrev pub releases : Bool → List Call
releases true =
    Call.lua_done ∷ Call.db_done ∷ Call.counters_done ∷ Call.log_done ∷ Call.options_done
    ∷ Call.rand_done ∷ Call.thread_done ∷ []
releases false =
    Call.db_done ∷ Call.counters_done ∷ Call.log_done ∷ Call.options_done ∷ Call.rand_done
    ∷ Call.thread_done ∷ []

-- What may follow from a place on: the next call, when it lets main go on; the place after, when
-- there is neither help nor a version to print, or a built-in test instead of a script; a last
-- call; a message and no release, when a built-in test gets no command or the test has no help; a
-- command with the releases; or a message with them, when the test does not have the command.
pub data Orderly (w : World) : ℕ → List Call → Type 0 where
  goes_on :
      (c : Call) {k : ℕ} {calls : List Call}
      → place c ≡ k
      → GoesOn w c
      → Orderly w (suc k) calls
      → Orderly w k (c ∷ calls)
  no_flag :
      {k : ℕ} {calls : List Call}
      → k ≡ 4
      → w.help_flag ≡ false
      → w.version_flag ≡ false
      → Orderly w (suc k) calls
      → Orderly w k calls
  no_script :
      {k : ℕ} {calls : List Call}
      → k ≡ 9
      → (testname : Str) (t : Test) → find_test testname w.tests ≡ some t
      → Orderly w (suc k) calls
      → Orderly w k calls
  ends : (c : Call) {k : ℕ} → place c ≡ k → Ends w c → Orderly w k (c ∷ [])
  no_command : {k : ℕ} → k ≡ 9 → asked w ≡ none → Orderly w k (Call.complains ∷ [])
  no_help : {k : ℕ} → k ≡ 11 → asked w ≡ some (codes "help") → Orderly w k (Call.complains ∷ [])
  commands : (c : Call) {k : ℕ} → k ≡ 11 → IsCommand c → Orderly w k (c ∷ releases w.lua_loaded)
  refuses : {k : ℕ} → k ≡ 11 → Orderly w k (Call.complains ∷ releases w.lua_loaded)

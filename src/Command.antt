-- ===== src/Command.antt =====
-- src/sysbench.c: the command line. An argument vector is the list of its entries from index 1 on,
-- an entry that has been parsed being NULL (none).
pub mod Laws
pub mod Left
pub mod Value
pub mod Init
mod Insertion
mod Tests
use sysbench.Prelude.{
  ℕ, ◌≡◌, Bool, true, false, not, Option, none, some, List, [], ◌∷◌, if◌then◌else◌, ◌==◌, get_elem?,
}
use sysbench.Prelude.Text.{Str}
use sysbench.Options.Table.{ArgType, string, Opt, find_option}
use sysbench.Options.Set.{Files, set_option, Arg, register_arg_set}

-- strchr(name, '=') : the name before the first '=', and the value after it if there is one.
unfoldable pub split_value : Str → Str × Option Str
split_value [] = ([], none)
split_value (c ∷ s) =
    let (name, value) = split_value s in if c == b'=' then ([], some s) else (c ∷ name, value)

pub type_in : Option Opt → ArgType
type_in none = string
type_in (some o) = o.type

-- set_option(...) == NULL
pub status_of : List Opt × Option ℕ → List Opt × ℕ
status_of (opts, some i) = (opts, 0)
status_of (opts, none) = (opts, 1)

-- parse_option once sb_find_option has returned
pub set_found : Files → List Opt → Str → Option Str → Bool → Option ℕ → List Opt × ℕ
unfolding type_in status_of
set_found files opts name value ignore_unknown (some i) =
    status_of (set_option files opts name value (type_in (get_elem? opts i)))
set_found files opts name value ignore_unknown none =
    if ignore_unknown then status_of (set_option files opts name value string) else (opts, 1)

-- parse_option: the options, and the status 0 or 1.
unfoldable pub parse_option : Files → List Opt → Str → Bool → List Opt × ℕ
unfolding split_value set_found
parse_option files opts arg ignore_unknown =
    let (name, value) = split_value arg in
    set_found files opts name value ignore_unknown (find_option opts name)

-- argv[i] + 2 if the argument begins with "--" (strncmp returns 0), none if it does not.
abbrev pub option_text : Str → Option Str
option_text [] = none
option_text (c ∷ []) = none
option_text (c ∷ d ∷ s) = if c == b'-' then (if d == b'-' then some s else none) else none

-- testname, cmdname and argv while parse_general_arguments reads them
pub record Line : Type 0 where
  pub testname : Option Str
  pub cmdname : Option Str
  pub argv : List (Option Str)

-- An entry put before those of a result; a failure stays one.
abbrev pub put_entry : Option Str → List Opt × Option Line → List Opt × Option Line
put_entry a (opts, none) = (opts, none)
put_entry a (opts, some line) = (opts, some (record line { argv = a ∷ line.argv }))

-- testname and cmdname after an argument that is not an option; none if both are taken.
unfoldable pub place : Option Str → Option Str → Str → Option (Option Str × Option Str)
place none cmdname arg = some (some arg, cmdname)
place (some t) none arg = some (some t, some arg)
place (some t) (some c) arg = none

-- The loop of parse_general_arguments, on the arguments that are left; no line is the return 1.
unfoldable pub general_from :
    Files → List Opt → Option Str → Option Str → List Str → List Opt × Option Line
unfolding parse_option place
general_from files opts testname cmdname [] =
    (opts, some (record { testname = testname; cmdname = cmdname; argv = [] }))
general_from files opts testname cmdname (arg ∷ args) = elim (option_text arg) [
  | none ↦ elim (place testname cmdname arg) [
    | none ↦ (opts, none)
    | some names ↦ put_entry (some arg) (general_from files opts names.0 names.1 args)
  ]
  | some text ↦
      let (opts', rc) = parse_option files opts text false in
      put_entry (if rc == 0 then none else some arg)
        (general_from files opts' testname cmdname args)
]

-- parse_general_arguments, `general_args` being the set that it registers: sb_globals is written
-- only on success.
unfoldable pub parse_general_arguments :
    Files → List Arg → List Opt → List Str → List Opt × Option Line
unfolding general_from
parse_general_arguments files general_args opts argv =
    let (opts', status) = register_arg_set files opts general_args in
    if status == 0 then general_from files opts' none none argv else (opts', none)

-- The options, the status and the arguments after parse_test_arguments.
pub record Parsed : Type 0 where
  pub opts : List Opt
  pub status : ℕ
  pub argv : List (Option Str)

abbrev pub keep_entry : Option Str → Parsed → Parsed
keep_entry a r = record r { argv = a ∷ r.argv }

-- The loop of parse_test_arguments.
unfoldable pub test_from : Files → List Opt → List (Option Str) → Parsed
unfolding parse_option
test_from files opts [] = record { opts = opts; status = 0; argv = [] }
test_from files opts (none ∷ argv) = keep_entry none (test_from files opts argv)
test_from files opts (some arg ∷ argv) = elim (option_text arg) [
  | none ↦ keep_entry (some arg) (test_from files opts argv)
  | some text ↦
      let (opts', rc) = parse_option files opts text false in
      let rest = test_from files opts' argv in
      if rc == 0
      then keep_entry none rest
      else record { opts = opts'; status = 1; argv = some arg ∷ argv }
]

-- test->args != NULL && sb_register_arg_set(test->args)
pub register_test : Files → List Opt → Option (List Arg) → List Opt × ℕ
register_test files opts none = (opts, 0)
register_test files opts (some args) = register_arg_set files opts args

unfoldable pub parse_test_arguments :
    Files → Option (List Arg) → List Opt → List (Option Str) → Parsed
unfolding register_test test_from
parse_test_arguments files args opts argv =
    let (opts', status) = register_test files opts args in
    let r = test_from files opts' argv in
    if status == 0 then r else record { opts = opts'; status = 1; argv = argv }

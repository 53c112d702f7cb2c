-- ===== src/Main/RunCommand.antt =====
-- The exit status of main (src/sysbench.c) for the command run.
use sysbench.Prelude.{
  ℕ, zero, suc, ◌≡◌, ◌↔◌, refl, Bool, true, false, Option, none, some, arith, ◌==◌, if◌then◌else◌,
  inl, inr, ◌⊎◌, ap, sym, ◌∙◌,
}
use sysbench.Prelude.Int.{ℤ, pos}
use sysbench.Prelude.Text.{Str, codes, str_eq}
use sysbench.Main.Phases.{run_test}
use sysbench.Main.Status.{Succeeds, run_test-zero}
use sysbench.Main.Dispatch.{
  Test, find_test, Call, World, Exit, make, need, end, command, custom_or, dispatch, loaded,
  selected, select_test, with_arguments, main,
}

abbrev pub run_name : Str
run_name = codes "run"

-- The test of a name: a built-in one, else the script of that name.
abbrev pub or_script : World → Str → Option Test → Option Test
or_script w testname (some t) = some t
or_script w testname none = w.script (some testname)

-- `sysbench <testname> run`, with everything before the command in order.
pub record AsksToRun (w : World) (t : Test) (testname : Str) : Type 0 where
  pub logger : w.log_registers ≡ true
  pub registration : w.tests_register ≡ true
  pub arguments : w.arguments ≡ some (some testname, some run_name)
  pub no_help : w.help_flag ≡ false
  pub no_version : w.version_flag ≡ false
  pub init : w.inits ≡ true
  pub log_init : w.log_inits ≡ true
  pub counters_init : w.counters_init ≡ true
  pub not_stdin : str_eq testname (codes "-") ≡ false
  pub test : or_script w testname (find_test testname w.tests) ≡ some t
  pub options : w.parses t ≡ true
  pub not_custom : (w.lua_loaded ≡ false) ⊎ (w.custom_command run_name ≡ none)

need-code : (c : Call) (ok : Bool) (r : Exit) → ok ≡ true → (need c ok r).code ≡ r.code
unfolding need make
need-code c ok r e = rw e refl

make-code : (c : Call) (r : Exit) → (make c r).code ≡ r.code
unfolding make
make-code c r = refl

command-run :
    (w : World) (t : Test)
    → (command w t run_name).code ≡ (if (run_test t.plan).status == 0 then pos 0 else pos 1)
unfolding command make end
command-run w t = refl

either_none : {A : Type 0} (b : Bool) (o : Option A) → o ≡ none → (if b then o else none) ≡ none
either_none true o e = e
either_none false o e = refl

dispatch-run :
    (w : World) (t : Test) (testname : Str)
    → AsksToRun w t testname
    → (dispatch w t run_name).code ≡ (if (run_test t.plan).status == 0 then pos 0 else pos 1)
unfolding dispatch custom_or
dispatch-run w t testname a =
    need-code Call.parse_test (w.parses t) _ a.options
    ∙ ordinary (if w.lua_loaded then w.custom_command run_name else none) (no_custom a.not_custom)
  where
    no_custom :
        (w.lua_loaded ≡ false) ⊎ (w.custom_command run_name ≡ none)
        → (if w.lua_loaded then w.custom_command run_name else none) ≡ none
    no_custom (inl e) = rw e refl
    no_custom (inr e) = either_none w.lua_loaded (w.custom_command run_name) e

    ordinary :
        (rc : Option ℤ)
        → rc ≡ none
        → (custom_or w rc (command w t run_name)).code
          ≡ (if (run_test t.plan).status == 0 then pos 0 else pos 1)
    ordinary none e = command-run w t
    ordinary (some rc) e = absurd (cc)

selected-run :
    (w : World) (t : Test) (testname : Str) (found : Option Test)
    → or_script w testname found ≡ some t
    → (selected w testname (some run_name) found).code ≡ (dispatch w t run_name).code
unfolding selected loaded make
selected-run w t testname (some t') e = ap (λ o. (dispatch w (get o t) run_name).code) e
  where
    get : Option Test → Test → Test
    get none d = d
    get (some x) d = x
selected-run w t testname none e = rw e refl

zero_iff : (n : ℕ) → ((if n == 0 then pos 0 else pos 1) ≡ pos 0) ↔ (n ≡ 0)
zero_iff zero = (λ h. refl, λ h. refl)
zero_iff (suc n) = (λ h. absurd (grind arith), λ h. absurd (omega arith))

select_test-run :
    (w : World) (t : Test) (testname : Str)
    → AsksToRun w t testname
    → (select_test w (some testname) (some run_name)).code
      ≡ (if (run_test t.plan).status == 0 then pos 0 else pos 1)
unfolding select_test
select_test-run w t testname a =
    rw a.not_stdin
      (selected-run w t testname (find_test testname w.tests) a.test ∙ dispatch-run w t testname a)

with_arguments-run :
    (w : World) (t : Test) (testname : Str)
    → AsksToRun w t testname
    → (with_arguments w (some (some testname, some run_name))).code
      ≡ (if (run_test t.plan).status == 0 then pos 0 else pos 1)
unfolding with_arguments
with_arguments-run w t testname a =
    rw (a.no_help, a.no_version)
      (need-code Call.init w.inits _ a.init
        ∙ need-code Call.log_init w.log_inits _ a.log_init
        ∙ need-code Call.counters_init w.counters_init _ a.counters_init
        ∙ make-code Call.prints_header (select_test w (some testname) (some run_name))
        ∙ select_test-run w t testname a)

-- If nothing fails before the command, there are no flags help and version, the test is a built-in
-- one or the script of the given name, and the script does not define a command run of its own,
-- then `sysbench <testname> run` exits with 0 exactly if nothing that run_test needs fails.
pub main-run :
    (w : World) (t : Test) (testname : Str)
    → AsksToRun w t testname
    → ((main w).code ≡ pos 0) ↔ Succeeds t.plan
unfolding main
main-run w t testname a =
    let parsed = make Call.parse_general (with_arguments w w.arguments) in
    let registered = need Call.register_tests w.tests_register parsed in
    let before =
      make-code Call.options_init (need Call.log_register w.log_registers registered)
      ∙ need-code Call.log_register w.log_registers _ a.logger
      ∙ need-code Call.register_tests w.tests_register _ a.registration
      ∙ make-code Call.parse_general (with_arguments w w.arguments) in
    let z = zero_iff (run_test t.plan).status in
    let s = run_test-zero t.plan in
    let code =
      before
      ∙ ap (λ x. (with_arguments w x).code) a.arguments
      ∙ with_arguments-run w t testname a in
    (λ h. s.0 (z.0 (sym code ∙ h)), λ h. code ∙ z.1 (s.1 h))

-- ===== src/Command/Left.antt =====
-- src/sysbench.c: which arguments the two passes over the command line leave.
use sysbench.Prelude.{
  ◌≡◌, ◌∙◌, refl, sym, ap, Bool, true, false, Option, none, some, List, [], ◌∷◌, if◌then◌else◌,
  ◌==◌, inl, inr, Bool-cases, Option-cases, arith,
}
use sysbench.Prelude.Text.{Str}
use sysbench.Options.Table.{Opt}
use sysbench.Options.Set.{Files, Arg, register_arg_set}
use sysbench.Command.{
  register_test, option_text, Line, put_entry, place, general_from, parse_general_arguments,
  test_from, parse_test_arguments, parse_option,
}
use sysbench.Command.Laws.{positional, entries}

put_entry-some :
    (a : Option Str) (r : List Opt × Option Line) {line : Line}
    → (put_entry a r).1 ≡ some line
    → (l : Line) × (r.1 ≡ some l) × (a ∷ l.argv ≡ line.argv)
put_entry-some a (opts, none) e = cc
put_entry-some a (opts, some l) {line} e =
    let e' : record l { argv = a ∷ l.argv } ≡ line = cc in (l, refl, ap (λ m. m.argv) e')

positional-cons :
    (arg : Str) (args : List Str)
    → option_text arg ≡ none
    → positional (arg ∷ args) ≡ arg ∷ positional args
positional-cons arg args plain = rw (positional, plain)

positional-entry :
    (b : Bool) (arg text : Str) (argv : List (Option Str))
    → option_text arg ≡ some text
    → positional (entries ((if b then none else some arg) ∷ argv)) ≡ positional (entries argv)
positional-entry true arg text argv e = refl
positional-entry false arg text argv e = rw (positional, e)

positional-skip :
    (arg text : Str) (args : List Str)
    → option_text arg ≡ some text
    → positional (arg ∷ args) ≡ positional args
positional-skip arg text args e = rw (positional, e)

-- The loop of parse_general_arguments may only remove options.
general_from-positional :
    (files : Files) (opts : List Opt) (testname cmdname : Option Str) (args : List Str)
    {line : Line}
    → (general_from files opts testname cmdname args).1 ≡ some line
    → positional (entries line.argv) ≡ positional args
unfolding general_from
general_from-positional files opts testname cmdname [] {line} e =
    let e' : record { testname = testname; cmdname = cmdname; argv = [] } ≡ line = cc in
    ap (λ m. positional (entries m.argv)) (sym e')
general_from-positional files opts testname cmdname (arg ∷ args) {line} e =
    elim (Option-cases (option_text arg)) [
      | inl plain ↦ elim (Option-cases (place testname cmdname arg)) [
        | inl full ↦ absurd (cc (rw (general_from, plain, full) at e))
        | inr (p, free) ↦
            let (l, found, same) =
              put_entry-some (some arg) (general_from files opts p.0 p.1 args)
                (rw (general_from, plain, free) at e) in
            rw (← same, positional, plain)
              (ap (λ xs. arg ∷ xs) (general_from-positional files opts p.0 p.1 args found))
      ]
      | inr (text, is_option) ↦
          let opts' = (parse_option files opts text false).0 in
          let b = (parse_option files opts text false).1 == 0 in
          let (l, found, same) =
            put_entry-some (if b then none else some arg)
              (general_from files opts' testname cmdname args)
              (rw (general_from, is_option) at e) in
          rw (← same) (
            positional-entry b arg text l.argv is_option
            ∙ general_from-positional files opts' testname cmdname args found
            ∙ sym (positional-skip arg text args is_option))
    ]

-- The loop of parse_test_arguments leaves no option when it succeeds.
test_from-entries :
    (files : Files) (opts : List Opt) (argv : List (Option Str))
    → (test_from files opts argv).status ≡ 0
    → entries (test_from files opts argv).argv ≡ positional (entries argv)
unfolding test_from
test_from-entries files opts [] ok = refl
test_from-entries files opts (none ∷ argv) ok = test_from-entries files opts argv ok
test_from-entries files opts (some arg ∷ argv) ok = elim (Option-cases (option_text arg)) [
  | inl plain ↦
      rw (test_from, positional, plain)
        (ap (λ xs. arg ∷ xs) (test_from-entries files opts argv (rw (test_from, plain) at ok)))
  | inr (text, e) ↦ elim (Bool-cases ((parse_option files opts text false).1 == 0)) [
    | inl fine ↦
        rw (test_from, positional, e, fine)
          (test_from-entries files (parse_option files opts text false).0 argv
            (rw (test_from, e, fine) at ok))
    | inr failed ↦ absurd (omega (arith, rw (test_from, e, failed) at ok))
  ]
]

parse_general_arguments-positional :
    (files : Files) (general_args : List Arg) (opts : List Opt) (argv : List Str) {line : Line}
    → (parse_general_arguments files general_args opts argv).1 ≡ some line
    → positional (entries line.argv) ≡ positional argv
unfolding parse_general_arguments
parse_general_arguments-positional files general_args opts argv e =
    elim (Bool-cases ((register_arg_set files opts general_args).1 == 0)) [
      | inl fine ↦
          general_from-positional files (register_arg_set files opts general_args).0 none none argv
            (rw fine at e)
      | inr failed ↦ absurd (cc (rw failed at e))
    ]

parse_test_arguments-positional :
    (files : Files) (test_args : Option (List Arg)) (opts : List Opt) (argv : List (Option Str))
    → (parse_test_arguments files test_args opts argv).status ≡ 0
    → entries (parse_test_arguments files test_args opts argv).argv ≡ positional (entries argv)
unfolding parse_test_arguments
parse_test_arguments-positional files test_args opts argv ok =
    elim (Bool-cases ((register_test files opts test_args).1 == 0)) [
      | inl fine ↦
          rw fine
            (test_from-entries files (register_test files opts test_args).0 argv (rw fine at ok))
      | inr failed ↦ absurd (omega (arith, rw failed at ok))
    ]

-- When both passes succeed, the entries of the argument vector that are left are the arguments that
-- do not begin with "--", in their order.
pub parse_test_arguments-entries :
    (files : Files) (general_args : List Arg) (test_args : Option (List Arg)) (opts : List Opt)
    (argv : List Str) (line : Line)
    → (parse_general_arguments files general_args opts argv).1 ≡ some line
    → let opts' = (parse_general_arguments files general_args opts argv).0 in
      let r = parse_test_arguments files test_args opts' line.argv in
      r.status ≡ 0 → entries r.argv ≡ positional argv
parse_test_arguments-entries files general_args test_args opts argv line e ok =
    parse_test_arguments-positional files test_args
      (parse_general_arguments files general_args opts argv).0 line.argv ok
    ∙ parse_general_arguments-positional files general_args opts argv e

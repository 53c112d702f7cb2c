-- ===== src/Command/Laws.antt =====
-- src/sysbench.c: which arguments parse_general_arguments and parse_test_arguments take.
use sysbench.Prelude.{
  ◌≡◌, ◌∙◌, refl, false, Option, none, some, List, [], ◌∷◌, if◌then◌else◌, ◌==◌, ◌>>=◌, inl, inr,
  Bool-cases, Option-cases,
}
use sysbench.Prelude.Text.{Str}
use sysbench.Options.Table.{Opt}
use sysbench.Options.Set.{Files, Arg, register_arg_set}
use sysbench.Command.{
  option_text, Line, put_entry, place, general_from, parse_general_arguments, parse_option,
}

-- The arguments that do not begin with "--".
abbrev pub positional : List Str → List Str
positional [] = []
positional (arg ∷ args) = elim (option_text arg) [
  | none ↦ arg ∷ positional args
  | some text ↦ positional args
]

-- The entries that are not NULL.
abbrev pub entries : List (Option Str) → List Str
entries [] = []
entries (none ∷ argv) = entries argv
entries (some arg ∷ argv) = arg ∷ entries argv

abbrev pub names_in : Option Line → Option (Option Str × Option Str)
names_in none = none
names_in (some line) = some (line.testname, line.cmdname)

-- The test's name and the command are the first and the second of at most two arguments.
abbrev pub first_two : List Str → Option (Option Str × Option Str)
first_two [] = some (none, none)
first_two (a ∷ []) = some (some a, none)
first_two (a ∷ b ∷ []) = some (some a, some b)
first_two (a ∷ b ∷ c ∷ args) = none

abbrev place_all : Option Str → Option Str → List Str → Option (Option Str × Option Str)
place_all testname cmdname [] = some (testname, cmdname)
place_all testname cmdname (a ∷ args) = place testname cmdname a >>= λ p. place_all p.0 p.1 args

place_all-first_two : (args : List Str) → place_all none none args ≡ first_two args
unfolding place
place_all-first_two [] = refl
place_all-first_two (a ∷ []) = refl
place_all-first_two (a ∷ b ∷ []) = refl
place_all-first_two (a ∷ b ∷ c ∷ args) = refl

names_in-put_entry :
    (a : Option Str) (r : List Opt × Option Line) → names_in (put_entry a r).1 ≡ names_in r.1
names_in-put_entry a (opts, none) = refl
names_in-put_entry a (opts, some line) = refl

names_in-general_from :
    (files : Files) (opts : List Opt) (testname cmdname : Option Str) (args : List Str)
    → names_in (general_from files opts testname cmdname args).1
      ≡ place_all testname cmdname (positional args)
unfolding general_from
names_in-general_from files opts testname cmdname [] = refl
names_in-general_from files opts testname cmdname (arg ∷ args) =
    elim (Option-cases (option_text arg)) [
      | inl plain ↦ elim (Option-cases (place testname cmdname arg)) [
        | inl full ↦ rw (general_from, positional, plain, full)
        | inr (p, free) ↦
            rw (general_from, positional, plain, free)
              (names_in-put_entry (some arg) (general_from files opts p.0 p.1 args)
                ∙ names_in-general_from files opts p.0 p.1 args)
      ]
      | inr (text, e) ↦
          rw (general_from, positional, e)
            (names_in-put_entry _
                (general_from files (parse_option files opts text false).0 testname cmdname args)
              ∙ names_in-general_from files (parse_option files opts text false).0 testname cmdname
                  args)
    ]

-- parse_general_arguments returns 0 exactly when its options register and at most two arguments do
-- not begin with "--"; the first of them is then the test's name, the second the command.
pub parse_general_arguments-names :
    (files : Files) (general_args : List Arg) (opts : List Opt) (argv : List Str)
    → names_in (parse_general_arguments files general_args opts argv).1 ≡ (
        if (register_arg_set files opts general_args).1 == 0
        then first_two (positional argv)
        else none)
unfolding parse_general_arguments
parse_general_arguments-names files general_args opts argv =
    elim (Bool-cases ((register_arg_set files opts general_args).1 == 0)) [
      | inl fine ↦ rw fine (
          names_in-general_from files (register_arg_set files opts general_args).0 none none argv
          ∙ place_all-first_two (positional argv))
      | inr failed ↦ rw failed
    ]

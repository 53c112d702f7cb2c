-- ===== src/Options/Set/Register.antt =====
-- src/sb_options.c: what sb_register_arg_set makes of the validators.
use sysbench.Prelude.{
  ℕ, ◌≡◌, ◌∙◌, refl, sym, ap, Bool, true, false, Option, none, some, List, [], ◌∷◌, ◌++◌, arith,
  if◌then◌else◌, inl, inr, Option-cases, modify,
}
use sysbench.Prelude.Text.{Str, IsCString}
use sysbench.Options.Table.{
  bool, Opt, find_option, find_option-modify, get_elem?-modify, get_elem?-find_option,
}
use sysbench.Options.Set.Laws.{set_option-bool}
use sysbench.Options.Set.{
  Files, Arg, set_option, register_from, registered, register_arg_set, validate_of, validate_in,
}

-- A set's entry for a boolean option.
abbrev pub bool_arg : Str → Option Str → Option (Str → Option Str → Bool) → Arg
bool_arg name value validate = record {
  name = name;
  value = value;
  type = bool;
  validate = validate;
}

if_some :
    {A : Type 0} (b : Bool) (o : Option A) {x : A} → (if b then o else none) ≡ some x → o ≡ some x
if_some true o e = e
if_some false o e = cc

found-bool :
    (files : Files) (opts : List Opt) (name : Str) (value : Option Str) {i : ℕ}
    → IsCString name
    → (set_option files opts name value bool).1 ≡ some i
    → find_option (set_option files opts name value bool).0 name ≡ some i
found-bool files opts name value h e =
    if_some _ (find_option (set_option files opts name value bool).0 name)
      (sym (set_option-bool files opts name value h).0 ∙ e)

register_from-last :
    (files : Files) (first : Option (Str → Option Str → Bool)) (opts : List Opt) (args : List Arg)
    (name : Str) (value : Option Str) (validate : Option (Str → Option Str → Bool))
    → IsCString name
    → let (opts', status) =
        register_from files first opts (args ++ (bool_arg name value validate ∷ [])) in
      status ≡ 0 → (i : ℕ) × (find_option opts' name ≡ some i) × (validate_of opts' i ≡ first)
unfolding register_from validate_of
register_from-last files first opts [] name value validate h ok =
    elim (Option-cases (set_option files opts name value bool).1) [
      | inl e ↦ absurd (omega (arith, rw (e, register_from, registered) at ok))
      | inr (i, e) ↦
          let found = found-bool files opts name value h e in
          let at = get_elem?-find_option (set_option files opts name value bool).0 name found in
          rw (e, register_from, registered)
            (
              i,
              find_option-modify (set_option files opts name value bool).0 i _ name (λ o. refl)
                  ∙ found,
              ap validate_in (get_elem?-modify (set_option files opts name value bool).0 i _ at.1),
            )
    ]
register_from-last files first opts (a ∷ args) name value validate h ok =
    elim (Option-cases (set_option files opts a.name a.value a.type).1) [
      | inl e ↦ absurd (omega (arith, rw (e, register_from, registered) at ok))
      | inr (i, e) ↦
          rw (e, register_from, registered)
            (register_from-last files first
              (modify (set_option files opts a.name a.value a.type).0 i
                (λ o. record o { validate = first }))
              args name value validate h (rw (e, register_from, registered) at ok))
    ]

-- sb_register_arg_set gives every option the validator of the set's first entry: when it succeeds
-- on a set that ends with the entry of a boolean option, that option has the first entry's
-- validator, whatever its own entry says.
pub register_arg_set-validate :
    (files : Files) (opts : List Opt) (a : Arg) (args : List Arg) (name : Str) (value : Option Str)
    (validate : Option (Str → Option Str → Bool))
    → IsCString name
    → let (opts', status) =
        register_arg_set files opts (a ∷ args ++ (bool_arg name value validate ∷ [])) in
      status ≡ 0 → (i : ℕ) × (find_option opts' name ≡ some i) × (validate_of opts' i ≡ a.validate)
unfolding register_arg_set
register_arg_set-validate files opts a args name value validate h ok =
    register_from-last files a.validate opts (a ∷ args) name value validate h ok

-- ===== src/Options/Set/Laws.antt =====
-- src/sb_options.c: what set_option leaves for the functions that read options.
use sysbench.Prelude.{
  ℕ, ◌≡◌, ◌∙◌, refl, sym, ap, true, false, ◌&&◌, ◌||◌, Option, none, some, List, [], ◌∷◌, ◌++◌,
  if◌then◌else◌, inl, inr, Bool-cases, modify, get_elem?,
}
use sysbench.Prelude.Text.{Str, IsCString}
use sysbench.Options.Table.{
  ArgType, null, bool, list, file, max, add_value, int, size, double, string, Opt, find_option,
  add_option, find_option-add_option, find_option-modify, get_elem?-modify, get_elem?-find_option,
}
use sysbench.Options.Set.{
  Files, str_on, is_true, is_false, is_bool, validates, validate_of, assign, store, emptied,
  set_option, option_at, values_in, values_of, get_value_flag, not_nil,
}

-- An option found by its name, at a position.
record FoundAt (opts : List Opt) (name : Str) (i : ℕ) (o : Opt) : Type 0 where
  found : find_option opts name ≡ some i
  there : get_elem? opts i ≡ some o

FoundAt-modify :
    (opts : List Opt) (name : Str) (i : ℕ) (o : Opt) (f : Opt → Opt)
    → ((p : Opt) → (f p).name ≡ p.name)
    → FoundAt opts name i o
    → FoundAt (modify opts i f) name i (f o)
FoundAt-modify opts name i o f h at = record {
  found = find_option-modify opts i f name h ∙ at.found;
  there = get_elem?-modify opts i f at.there;
}

FoundAt-add_option :
    (opts : List Opt) (name : Str)
    → IsCString name
    → (o : Opt) × FoundAt (add_option opts name).0 name (add_option opts name).1 o
FoundAt-add_option opts name h =
    let found = (find_option-add_option opts name h).0 in
    let (o, there) = get_elem?-find_option (add_option opts name).0 name found in
    (o, record { found = found; there = there })

values_of-FoundAt :
    (opts : List Opt) (name : Str) (i : ℕ) (o : Opt)
    → FoundAt opts name i o
    → values_of opts name ≡ o.values
values_of-FoundAt opts name i o at =
    ap (λ r. values_in (option_at opts r)) at.found ∙ ap values_in at.there

-- The types whose value is kept as one text.
abbrev pub IsScalar : ArgType → Type 0
IsScalar int = Unit {0}
IsScalar size = Unit {0}
IsScalar double = Unit {0}
IsScalar string = Unit {0}
IsScalar _ = ⊥

assign-scalar :
    (files : Files) (type : ArgType) (v : Str) (opts : List Opt) (i : ℕ)
    → IsScalar type
    → (assign files type (some v) opts i ≡ (add_value opts i v, true)) × (is_bool type ≡ false)
unfolding assign
assign-scalar files int v opts i h = (refl, refl)
assign-scalar files size v opts i h = (refl, refl)
assign-scalar files double v opts i h = (refl, refl)
assign-scalar files string v opts i h = (refl, refl)
assign-scalar files null v opts i h = absurd h
assign-scalar files bool v opts i h = absurd h
assign-scalar files list v opts i h = absurd h
assign-scalar files file v opts i h = absurd h
assign-scalar files max v opts i h = absurd h

store-scalar :
    (files : Files) (name : Str) (c : ℕ) (v : Str) (type : ArgType) (opts : List Opt) (i : ℕ)
    → IsScalar type
    → store files name (some (c ∷ v)) type opts i ≡ (
        if validates (validate_of opts i) name (some (c ∷ v))
        then (add_value opts i (c ∷ v), some i)
        else (opts, none))
unfolding store
store-scalar files name c v type opts i scalar =
    let (kept, plain) = assign-scalar files type (c ∷ v) opts i scalar in
    rw (kept, plain)
      (elim (Bool-cases (validates (validate_of opts i) name (some (c ∷ v)))) [
        | inl good ↦ rw good
        | inr bad ↦ rw bad
      ])

-- Setting an option of a scalar type to a text that is not empty: if the option's validator (should
-- it have one) accepts the text, the option is returned and exactly that text is then found
-- under its name; otherwise NULL is returned and the option has lost its values.
pub set_option-scalar :
    (files : Files) (opts : List Opt) (name : Str) (c : ℕ) (v : Str) (type : ArgType)
    → IsCString name
    → IsScalar type
    → let (opts', r) = set_option files opts name (some (c ∷ v)) type in
      let (opts0, i) = add_option opts name in
      let accepted = validates (validate_of opts0 i) name (some (c ∷ v)) in
      (r ≡ (if accepted then find_option opts' name else none))
      × (values_of opts' name ≡ (if accepted then (c ∷ v) ∷ [] else []))
unfolding set_option validate_of
set_option-scalar files opts name c v type h scalar =
    let opts0 = (add_option opts name).0 in
    let i = (add_option opts name).1 in
    let (o, at) = FoundAt-add_option opts name h in
    let at1 = FoundAt-modify opts0 name i o (emptied type) (λ p. refl) at in
    let at2 =
      FoundAt-modify (modify opts0 i (emptied type)) name i (emptied type o)
        (λ p. record p { values = p.values ++ ((c ∷ v) ∷ []) }) (λ p. refl) at1 in
    rw
      (
        store-scalar files name c v type (modify opts0 i (emptied type)) i scalar,
        at1.there,
        at.there,
      )
      (elim (Bool-cases (validates o.validate name (some (c ∷ v)))) [
        | inl good ↦ rw good (sym at2.found, values_of-FoundAt _ name i _ at2)
        | inr bad ↦ rw bad (refl, values_of-FoundAt _ name i _ at1)
      ])

-- Setting a boolean option: NULL, "on", "true" and "1" turn the flag on; "off", "false" and "0"
-- turn it off; any other text, or one that the validator refuses, returns NULL and leaves it off.
pub set_option-bool :
    (files : Files) (opts : List Opt) (name : Str) (value : Option Str)
    → IsCString name
    → let (opts', r) = set_option files opts name value bool in
      let (opts0, i) = add_option opts name in
      let accepted = validates (validate_of opts0 i) name value in
      (r ≡ (if accepted && (is_true value || is_false value) then find_option opts' name else none))
      × (get_value_flag opts' name ≡ (accepted && is_true value))
unfolding set_option store assign validate_of get_value_flag
set_option-bool files opts name value h =
    let opts0 = (add_option opts name).0 in
    let i = (add_option opts name).1 in
    let (o, at) = FoundAt-add_option opts name h in
    let at1 = FoundAt-modify opts0 name i o (emptied bool) (λ p. refl) at in
    let at2 =
      FoundAt-modify (modify opts0 i (emptied bool)) name i (emptied bool o)
        (λ p. record p { values = p.values ++ (str_on ∷ []) }) (λ p. refl) at1 in
    let off = ap not_nil (values_of-FoundAt _ name i _ at1) in
    let on = ap not_nil (values_of-FoundAt _ name i _ at2) in
    rw (at1.there, at.there)
      (elim (Bool-cases (validates o.validate name value)) [
        | inr bad ↦ rw bad (refl, off)
        | inl good ↦ rw good (elim (Bool-cases (is_true value)) [
          | inl true_text ↦ rw true_text (sym at2.found, on)
          | inr other ↦ rw other (elim (Bool-cases (is_false value)) [
            | inl false_text ↦ rw false_text (sym at1.found, off)
            | inr neither ↦ rw neither (refl, off)
          ])
        ])
      ])

-- ===== src/Options/Table.antt =====
-- src/sb_options.c: the list of options. A pointer to an option_t is its position in the list,
-- which only remove_option changes; allocation is taken to succeed.
use mathlib.Core.Option
use sysbench.Prelude.{
  ℕ, zero, suc, ◌≡◌, ◌≢◌, refl, ap, Bool, false, Option, none, some, List, [], ◌∷◌, ◌++◌, arith,
  if◌then◌else◌, inl, inr, Bool-cases, length, get_elem?, modify, Option-cases,
}
use sysbench.Prelude.Text.{Str, IsCString, str_eq}
use sysbench.Options.Name.{
  same_name, convert_dashes, same_name_iff, convert_dashes-convert_dashes, convert_dashes-IsCString,
}

-- sb_arg_type_t
pub data ArgType : Type 0 where
  null bool int size double string list file max : ArgType

-- option_t; `validate` is NULL or a function of the name and the value.
pub record Opt : Type 0 where
  pub name : Str
  pub type : ArgType
  pub values : List Str
  pub ignore : Bool
  pub validate : Option (Str → Option Str → Bool)

-- new_option, and its name as add_option sets it
unfoldable pub new_option : Str → Opt
unfolding convert_dashes
new_option name = record {
  name = convert_dashes name;
  type = null;
  values = [];
  ignore = false;
  validate = none;
}

unfoldable pub find_option : List Opt → Str → Option ℕ
unfolding same_name
find_option [] name = none
find_option (o ∷ opts) name =
    let rest = Option.map suc (find_option opts name) in
    if same_name o.name name then some 0 else rest

-- The rest of add_option, once find_option has returned.
or_append : List Opt → Str → Option ℕ → List Opt × ℕ
unfolding new_option
or_append opts name (some i) = (opts, i)
or_append opts name none = (opts ++ (new_option name ∷ []), length opts)

unfoldable pub add_option : List Opt → Str → List Opt × ℕ
unfolding or_append find_option
add_option opts name = or_append opts name (find_option opts name)

-- add_value on the option at a position: the value goes to the tail.
abbrev pub add_value : List Opt → ℕ → Str → List Opt
add_value opts i v = modify opts i (λ o. record o { values = o.values ++ (v ∷ []) })

-- free_values on the option at a position
abbrev pub free_values : List Opt → ℕ → List Opt
free_values opts i = modify opts i (λ o. record o { values = [] })

-- The first value that strcmp finds equal, by position.
pub find_value : List Str → Str → Option ℕ
find_value [] v = none
find_value (x ∷ values) v =
    let rest = Option.map suc (find_value values v) in if str_eq x v then some 0 else rest

pub delete_at {ℓ} : {A : Type ℓ} → List A → ℕ → List A
delete_at [] i = []
delete_at (x ∷ xs) zero = xs
delete_at (x ∷ xs) (suc i) = x ∷ delete_at xs i

-- remove_value and remove_option: the list, and the status 0 or 1
pub remove_value : List Str → Str → List Str × ℕ
unfolding delete_at
remove_value values v = elim (find_value values v) [
  | some i ↦ (delete_at values i, 0)
  | none ↦ (values, 1)
]

pub remove_option : List Opt → Str → List Opt × ℕ
unfolding delete_at
remove_option opts name = elim (find_option opts name) [
  | some i ↦ (delete_at opts i, 0)
  | none ↦ (opts, 1)
]

-- The names of a list of options are C strings, kept without dashes.
abbrev pub AllNamed : List Opt → Type 0
AllNamed [] = Unit {0}
AllNamed (o ∷ opts) = IsCString o.name × (convert_dashes o.name ≡ o.name) × AllNamed opts

find_option-append_new :
    (opts : List Opt) (name : Str)
    → IsCString name
    → find_option opts name ≡ none
    → find_option (opts ++ (new_option name ∷ [])) name ≡ some (length opts)
unfolding find_option new_option
find_option-append_new [] name h e = rw (
    (same_name_iff (convert_dashes name) name (convert_dashes-IsCString name h) h).1
      (convert_dashes-convert_dashes name))
find_option-append_new (o ∷ opts) name h e = elim (Bool-cases (same_name o.name name)) [
  | inl same ↦ ground (arith)
  | inr other ↦ rw other (ground (arith, find_option-append_new opts name h))
]

find_option-append :
    (opts new : List Opt) (name : Str) {i : ℕ}
    → find_option opts name ≡ some i
    → find_option (opts ++ new) name ≡ some i
unfolding find_option
find_option-append [] new name e = cc
find_option-append (o ∷ opts) new name {i} e = elim (Bool-cases (same_name o.name name)) [
  | inl same ↦ rw same (rw same at e)
  | inr other ↦ elim (Option-cases (find_option opts name)) [
    | inl e' ↦ absurd (cc (rw (other, e') at e))
    | inr (k, e') ↦ rw (other, find_option-append opts new name e') (rw (other, e') at e)
  ]
]

-- After add_option the name is found at the position that it returns, and every name that was
-- found before is found where it was.
pub find_option-add_option :
    (opts : List Opt) (name : Str)
    → IsCString name
    → let (opts', i) = add_option opts name in
      (find_option opts' name ≡ some i)
      × ((other : Str) (j : ℕ) → find_option opts other ≡ some j → find_option opts' other ≡ some j)
unfolding add_option
find_option-add_option opts name h = elim (Option-cases (find_option opts name)) [
  | inl e ↦
      rw (e, or_append)
        (find_option-append_new opts name h e, λ other j f. find_option-append opts _ other f)
  | inr (i, e) ↦ rw (e, or_append) (e, λ other j f. f)
]

pub find_option-modify :
    (opts : List Opt) (i : ℕ) (f : Opt → Opt) (name : Str)
    → ((o : Opt) → (f o).name ≡ o.name)
    → find_option (modify opts i f) name ≡ find_option opts name
unfolding find_option
find_option-modify [] i f name h = refl
find_option-modify (o ∷ opts) zero f name h = rw (h o)
find_option-modify (o ∷ opts) (suc i) f name h = rw (find_option-modify opts i f name h)

pub get_elem?-modify :
    (opts : List Opt) (i : ℕ) (f : Opt → Opt) {o : Opt}
    → get_elem? opts i ≡ some o
    → get_elem? (modify opts i f) i ≡ some (f o)
get_elem?-modify [] i f e = cc
get_elem?-modify (p ∷ opts) zero f e = cc
get_elem?-modify (p ∷ opts) (suc i) f e = get_elem?-modify opts i f e

pub get_elem?-modify_ne :
    (opts : List Opt) (i j : ℕ) (f : Opt → Opt)
    → i ≢ j
    → get_elem? (modify opts i f) j ≡ get_elem? opts j
get_elem?-modify_ne [] i j f h = refl
get_elem?-modify_ne (p ∷ opts) zero zero f h = absurd (h refl)
get_elem?-modify_ne (p ∷ opts) zero (suc j) f h = refl
get_elem?-modify_ne (p ∷ opts) (suc i) zero f h = refl
get_elem?-modify_ne (p ∷ opts) (suc i) (suc j) f h =
    get_elem?-modify_ne opts i j f (λ e. h (ap suc e))

pub get_elem?-find_option :
    (opts : List Opt) (name : Str) {i : ℕ}
    → find_option opts name ≡ some i
    → (o : Opt) × (get_elem? opts i ≡ some o)
unfolding find_option
get_elem?-find_option [] name e = cc
get_elem?-find_option (o ∷ opts) name {i} e = elim (Bool-cases (same_name o.name name)) [
  | inl same ↦ let z : 0 ≡ i = cc (rw same at e) in (o, rw (← z))
  | inr other ↦ elim (Option-cases (find_option opts name)) [
    | inl e' ↦ absurd (cc (rw (other, e') at e))
    | inr (k, e') ↦
        let z : suc k ≡ i = cc (rw (other, e') at e) in
        let (p, found) = get_elem?-find_option opts name e' in (p, rw (← z) found)
  ]
]

pub add_option-nil : (name : Str) → add_option [] name ≡ (new_option name ∷ [], 0)
unfolding add_option find_option
add_option-nil name = refl

pub find_option-singleton :
    (o : Opt) (name : Str) → same_name o.name name ≡ false → find_option (o ∷ []) name ≡ none
unfolding find_option
find_option-singleton o name e = rw e

pub name-new_option : (name : Str) → (new_option name).name ≡ convert_dashes name
unfolding new_option
name-new_option name = refl

pub add_option-found :
    (opts : List Opt) (name : Str) {i : ℕ}
    → find_option opts name ≡ some i
    → add_option opts name ≡ (opts, i)
unfolding add_option
add_option-found opts name e = rw (e, or_append)

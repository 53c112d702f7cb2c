-- ===== src/Options/Set.antt =====
-- src/sb_options.c: setting options, registering sets of them, and reading their values.
pub mod Known
pub mod Laws
pub mod Register
use mathlib.Core.Option
use sysbench.Prelude.{
  ℕ, zero, suc, ◌+◌, ◌-◌, ◌<◌, ◌≡◌, ◌≢◌, ◌∙◌, refl, sym, ap, Bool, true, false, ◌&&◌, ◌||◌, not,
  Option, none, some, List, [], ◌∷◌, ◌++◌, arith, if◌then◌else◌, ◌==◌, inl, inr, Bool-cases,
  Option-cases, modify, get_elem?, length, length-modify,
}
use sysbench.Prelude.Int.{ℤ, pos}
use sysbench.Prelude.Text.{Str, codes, str_eq, IsCString}
use sysbench.Options.Table.{
  ArgType, null, bool, int, size, double, string, list, file, max, Opt, find_option, add_option,
  add_value, free_values,
}
use sysbench.Options.Config.{read_config}
use sysbench.Options.Size.{to_int, to_size}

abbrev str_on : Str
str_on = codes "on"

-- value == NULL, or "on", "true" or "1"
pub is_true : Option Str → Bool
is_true none = true
is_true (some v) = str_eq v str_on || str_eq v (codes "true") || str_eq v (codes "1")

-- "off", "false" or "0"
pub is_false : Option Str → Bool
is_false none = false
is_false (some v) = str_eq v (codes "off") || str_eq v (codes "false") || str_eq v (codes "0")

-- strtok(value, ",") until NULL: the pieces between commas that are not empty, `acc` being read.
pub tokens : Str → Str → List Str
tokens [] [] = []
tokens (a ∷ acc) [] = (a ∷ acc) ∷ []
tokens [] (c ∷ s) = tokens (if c == b',' then [] else c ∷ []) s
tokens (a ∷ acc) (c ∷ s) =
    let rest = tokens [] s in
    let more = tokens (a ∷ acc ++ (c ∷ [])) s in if c == b',' then (a ∷ acc) ∷ rest else more

add_values : List Opt → ℕ → List Str → List Opt
add_values opts i [] = opts
add_values opts i (v ∷ values) = add_values (add_value opts i v) i values

is_empty_value : Option Str → Bool
is_empty_value none = true
is_empty_value (some []) = true
is_empty_value (some (c ∷ v)) = false

abbrev pub is_bool : ArgType → Bool
is_bool bool = true
is_bool _ = false

-- opt->validate != NULL && !opt->validate(name, value), negated
pub validates : Option (Str → Option Str → Bool) → Str → Option Str → Bool
validates none name value = true
validates (some f) name value = f name value

-- fopen: the text of a file, or none if it cannot be opened.
abbrev pub Files : Type 0
Files = Str → Option Str

-- read_config_file, which ignores what read_config returns
read_config_file : Files → List Opt → Str → List Opt
read_config_file files opts name = elim (files name) [
  | none ↦ opts
  | some text ↦ (read_config opts text).0
]

-- The switch of set_option, on a value that is there unless the type is bool: the options, and
-- whether set_option returns the option or NULL.
assign : Files → ArgType → Option Str → List Opt → ℕ → List Opt × Bool
unfolding add_values read_config_file is_true is_false tokens
assign files bool value opts i =
    if is_true value then (add_value opts i str_on, true) else (opts, is_false value)
assign files int (some v) opts i = (add_value opts i v, true)
assign files size (some v) opts i = (add_value opts i v, true)
assign files double (some v) opts i = (add_value opts i v, true)
assign files string (some v) opts i = (add_value opts i v, true)
assign files list (some v) opts i = (add_values opts i (tokens [] v), true)
assign files file (some v) opts i = (read_config_file files opts v, true)
assign files _ _ opts i = (opts, false)

abbrev validate_in : Option Opt → Option (Str → Option Str → Bool)
validate_in none = none
validate_in (some o) = o.validate

-- opt->validate of the option at a position
pub validate_of : List Opt → ℕ → Option (Str → Option Str → Bool)
validate_of opts i = validate_in (get_elem? opts i)

-- `opt->type = type` after free_values
abbrev pub emptied : ArgType → Opt → Opt
emptied type o = record o { values = []; type = type }

-- The rest of set_option, with the option at `i` emptied.
unfoldable pub store : Files → Str → Option Str → ArgType → List Opt → ℕ → List Opt × Option ℕ
unfolding validates validate_of is_empty_value assign
store files name value type opts i =
    let (opts', fine) = assign files type value opts i in
    if not (validates (validate_of opts i) name value)
    then (opts, none)
    else if not (is_bool type) && is_empty_value value
    then (opts, some i)
    else (opts', if fine then some i else none)

-- set_option: the options, and the option's position unless it returns NULL.
unfoldable pub set_option : Files → List Opt → Str → Option Str → ArgType → List Opt × Option ℕ
unfolding store add_option
set_option files opts name value type =
    let (opts', i) = add_option opts name in
    store files name value type (modify opts' i (emptied type)) i

-- sb_arg_t
pub record Arg : Type 0 where
  pub name : Str
  pub value : Option Str
  pub type : ArgType
  pub validate : Option (Str → Option Str → Bool)

-- What set_option returns, and `opt->validate = set->validate` on it.
registered : Option (Str → Option Str → Bool) → List Opt × Option ℕ → Option (List Opt)
registered first (opts, none) = none
registered first (opts, some i) = some (modify opts i (λ o. record o { validate = first }))

-- The loop of sb_register_arg_set; `first` is set->validate.
register_from : Files → Option (Str → Option Str → Bool) → List Opt → List Arg → List Opt × ℕ
unfolding registered
register_from files first opts [] = (opts, 0)
register_from files first opts (a ∷ args) =
    let r = set_option files opts a.name a.value a.type in
    elim (registered first r) [
      | none ↦ (r.0, 1)
      | some opts' ↦ register_from files first opts' args
    ]

first_validate : List Arg → Option (Str → Option Str → Bool)
first_validate [] = none
first_validate (a ∷ args) = a.validate

-- sb_register_arg_set: the options, and the status.
unfoldable pub register_arg_set : Files → List Opt → List Arg → List Opt × ℕ
unfolding register_from first_validate set_option
register_arg_set files opts args = register_from files (first_validate args) opts args

-- The option at a position, if there is one.
abbrev pub option_at : List Opt → Option ℕ → Option Opt
option_at opts none = none
option_at opts (some i) = get_elem? opts i

abbrev pub values_in : Option Opt → List Str
values_in none = []
values_in (some o) = o.values

abbrev pub values_of : List Opt → Str → List Str
values_of opts name = values_in (option_at opts (find_option opts name))

abbrev pub not_nil : List Str → Bool
not_nil [] = false
not_nil (v ∷ values) = true

abbrev pub head? : List Str → Option Str
head? [] = none
head? (v ∷ values) = some v

-- sb_get_value_flag, sb_get_value_int, sb_get_value_size, sb_get_value_string
pub get_value_flag : List Opt → Str → Bool
get_value_flag opts name = not_nil (values_of opts name)

unfoldable pub get_value_int : List Opt → Str → Option ℤ
get_value_int opts name = to_int (values_of opts name)

pub get_value_size : List Opt → Str → ℕ
get_value_size opts name = to_size (values_of opts name)

pub get_value_string : List Opt → Str → Option Str
get_value_string opts name = head? (values_of opts name)

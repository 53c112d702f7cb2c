-- ===== src/Options/Tests.antt =====
-- Options at concrete inputs.
use sysbench.Prelude.{◌≡◌, ◌↔◌, refl, Bool, true, false, Option, none, some, List, [], ◌∷◌, arith}
use sysbench.Prelude.Text.{Str, codes}
use sysbench.Options.Name.{convert_dashes, same_name, same_name_iff}
use sysbench.Options.Table.{Opt, string, find_option, new_option}
use sysbench.Options.Size.{to_size, to_size-NoDigit}
use sysbench.Options.Config.{read_config, write_option, is_quote}
use sysbench.Options.Config.Laws.{read_config-write_option}
use sysbench.Options.Set.{Files, Arg}
use sysbench.Options.Set.Register.{bool_arg}

abbrev no_files : Files
no_files name = none

same_name_iff_example :
    (same_name (codes "tx-rate") (codes "tx_rate") ≡ true)
    ↔ (convert_dashes (codes "tx-rate") ≡ convert_dashes (codes "tx_rate"))
same_name_iff_example =
    same_name_iff (codes "tx-rate") (codes "tx_rate") (omega arith) (omega arith)

same_name_run : same_name (codes "tx-rate") (codes "tx_rate") ≡ true
unfolding same_name
same_name_run = refl

to_size_run : to_size (codes "64k" ∷ []) ≡ 65536
unfolding to_size
to_size_run = refl

to_size-NoDigit_example : (to_size (codes "K" ∷ []) ≡ 0) × (to_size [] ≡ 0)
to_size-NoDigit_example = to_size-NoDigit (codes "K") [] refl

abbrev threads_opt : Opt
threads_opt = record {
  name = codes "threads";
  type = string;
  values = codes "4" ∷ [];
  ignore = false;
  validate = none;
}

read_config-write_option_example :
    let (opts, fine) = read_config [] (write_option threads_opt) in
    (fine ≡ true)
    × (opts ≡ record (new_option (codes "threads ")) { values = codes "4" ∷ [] } ∷ [])
    × (find_option opts (codes "threads") ≡ none)
read_config-write_option_example =
    read_config-write_option threads_opt (omega arith) (omega arith) (omega arith)
      ((((omega arith, refl), omega arith, unfold is_quote in refl), tt), tt)
      (unfold write_option in omega arith)

abbrev refuse : Str → Option Str → Bool
refuse name value = false

abbrev two_args : List Arg
two_args = bool_arg (codes "a") none none ∷ bool_arg (codes "b") none (some refuse) ∷ []

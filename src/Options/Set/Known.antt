-- ===== src/Options/Set/Known.antt =====
-- src/sb_options.c: set_option on an option that is known.
use sysbench.Prelude.{ℕ, ◌≡◌, none, some, List, [], ◌∷◌, if◌then◌else◌, get_elem?}
use sysbench.Prelude.Text.{Str, IsCString}
use sysbench.Options.Table.{ArgType, Opt, find_option, add_option-found}
use sysbench.Options.Set.{Files, set_option, validates, validate_of, values_of}
use sysbench.Options.Set.Laws.{set_option-scalar, IsScalar}

pub set_option-known :
    (files : Files) (opts : List Opt) (name : Str) (c : ℕ) (v : Str) (type : ArgType) (i : ℕ)
    (o : Opt)
    → IsCString name
    → find_option opts name ≡ some i
    → get_elem? opts i ≡ some o
    → IsScalar type
    → let (opts', r) = set_option files opts name (some (c ∷ v)) type in
      let accepted = validates o.validate name (some (c ∷ v)) in
      (r ≡ (if accepted then find_option opts' name else none))
      × (values_of opts' name ≡ (if accepted then (c ∷ v) ∷ [] else []))
unfolding validate_of
set_option-known files opts name c v type i o text found there scalar =
    let known = set_option-scalar files opts name c v type text scalar in
    rw (add_option-found opts name found, validate_of, there) at known

-- ===== src/Compare/Execute/Tests.antt =====
-- Prepared statements executed on two servers (src/drivers/compare/drv_compare.c).
use sysbench.Prelude.{
  ℕ, ◌≡◌, ◌≢◌, refl, inl, Bool, true, false, none, some, List, [], ◌∷◌, ◌==◌, arith,
}
use sysbench.Prelude.Text.{Str, codes}
use sysbench.Counters.{other}
use sysbench.Db.{error_none, error_fatal}
use sysbench.Compare.Query.{Rs}
use sysbench.Compare.Execute.{
  Value, Run, returns, returns_minus_one, is_dml, is_select, row_head, value_text, drv_execute,
}
use sysbench.Compare.Execute.Text.{sheet_text}
use sysbench.Compare.Execute.Reports.{Tells, Succeeds, drv_execute-Tells, drv_execute-unset}

abbrev lost : ℕ → Bool
lost e = e == 2006

abbrev select : Str
select = codes "SELECT c FROM t WHERE id=?"

abbrev no_rs : Rs
no_rs = record { counter = other; nrows = 0; nfields = 0; ptr = none }

abbrev gives : List (List Value) → Run
gives rows = record {
  metadata = true;
  binds = true;
  executes = true;
  stores = true;
  nrows = 1;
  nfields = 1;
  sheet = record { names = codes "c" ∷ []; rows = rows };
  errno = 0;
  attempts = [];
}

abbrev row_a : List (List Value)
row_a = (some (codes "a") ∷ []) ∷ []

abbrev row_null : List (List Value)
row_null = (none ∷ []) ∷ []

the_text :
    sheet_text (record { names = codes "c" ∷ []; rows = row_a })
    ≡ codes "rows 1:\n  c: a (length: 1) \n"
unfolding row_head value_text
the_text = refl

select-not_dml : is_dml select ≡ false
unfolding is_dml
select-not_dml = refl

select-is_select : is_select select ≡ true
unfolding is_select
select-is_select = refl

succeeds : (rows : List (List Value)) → Succeeds (gives rows)
succeeds rows = record {
  metadata = refl;
  binds = refl;
  executes = refl;
  stores = refl;
  few = omega arith;
}

-- The ints 256 and 512 are printed alike: their first byte is 0.
ints_confused :
    drv_execute false false lost [] select
      (gives ((some (0 ∷ 1 ∷ 0 ∷ 0 ∷ []) ∷ []) ∷ [])
        ∷ gives ((some (0 ∷ 2 ∷ 0 ∷ 0 ∷ []) ∷ []) ∷ [])
        ∷ [])
      no_rs
    ≡ some (record {
      ending = returns error_none;
      rs = record { counter = other; nrows = 1; nfields = 1; ptr = none };
      reported = some [];
      smashed = false;
    })
unfolding drv_execute
ints_confused = refl

-- "COMMIT" has no result, and so no metadata.
commit_refused :
    drv_execute false false lost []
      (codes "COMMIT")
      (record (gives []) { metadata = false } ∷ [])
      no_rs
    ≡ some (record { ending = returns_minus_one; rs = no_rs; reported = some []; smashed = false })
unfolding drv_execute
commit_refused = refl

emulated_refused :
    drv_execute false true lost [] select (gives row_a ∷ []) no_rs
    ≡ some
        (record { ending = returns error_fatal; rs = no_rs; reported = some []; smashed = false })
unfolding drv_execute
emulated_refused = refl

some_row : {r : List Value} {rows : List (List Value)} → r ∷ rows ≢ []
some_row e = cc

drv_execute-Tells_example :
    (reported : List ℕ) × (drv_execute false false lost [] select
        (gives row_a ∷ gives row_null ∷ [])
        no_rs
      ≡ some (record {
        ending = returns error_none;
        rs = record { counter = other; nrows = 1; nfields = 1; ptr = none };
        reported = some reported;
        smashed = false;
      }))
    × Tells
        (sheet_text (record { names = codes "c" ∷ []; rows = row_a }))
        1
        (gives row_null ∷ [])
        reported
unfolding row_head value_text
drv_execute-Tells_example =
    drv_execute-Tells lost [] select (gives row_a) (gives row_null ∷ []) no_rs select-not_dml
      select-is_select (succeeds row_a, (succeeds row_null, tt))
      ((some_row, omega arith), ((some_row, omega arith), tt))

drv_execute-unset_example :
    drv_execute false false lost [] select (gives [] ∷ gives [] ∷ []) no_rs
    ≡ some (record {
      ending = returns error_none;
      rs = record { counter = other; nrows = 1; nfields = 1; ptr = none };
      reported = none;
      smashed = false;
    })
drv_execute-unset_example =
    drv_execute-unset lost [] select (gives []) (gives [] ∷ []) no_rs select-not_dml
      select-is_select (succeeds [], (succeeds [], tt)) (inl refl)

-- ===== src/Compare/Query/Tests.antt =====
-- Statements sent to two or three servers (src/drivers/compare/drv_compare.c).
use sysbench.Prelude.{
  ℕ, ◌≡◌, ◌≢◌, refl, inl, inr, Bool, true, false, none, some, List, [], ◌∷◌, ◌==◌, ◌||◌, map, arith,
  length, ◌<◌,
}
use sysbench.Prelude.Text.{codes}
use sysbench.Counters.{read, write, error, other}
use sysbench.Db.{error_none, error_fatal}
use sysbench.Compare.Table.{Field, Table, int_limit, cell_length, format}
use sysbench.Compare.Table.Rendering.{rendering}
use sysbench.Compare.Table.Exact.{format-exact}
use sysbench.Compare.Errors.{Attempt, Verdict, check_error}
use sysbench.Compare.Errors.Laws.{Says, check_error-first}
use sysbench.Compare.Query.{query_fails, no_result, result, Answer, Rs, handle, failed, drv_query}
use sysbench.Compare.Query.Laws.{Rows, IsShort, Reports, drv_query-Reports, drv_query-failure}

-- CR_SERVER_GONE_ERROR and CR_SERVER_LOST
abbrev lost : ℕ → Bool
lost e = e == 2006 || e == 2013

abbrev id_column : List Field
id_column = record { name = codes "id"; max_length = 2 } ∷ []

abbrev two_rows : Rows
two_rows = some (some (codes "7") ∷ []) ∷ some (some (codes "42") ∷ []) ∷ []

abbrev with_blank : Rows
with_blank = some (some (codes "7 ") ∷ []) ∷ some (some (codes "42") ∷ []) ∷ []

abbrev other_rows : Rows
other_rows = some (some (codes "7") ∷ []) ∷ some (some (codes "43") ∷ []) ∷ []

abbrev small_table : Table
small_table = record { fields = id_column; rows = two_rows }

the_text : (format small_table).text ≡ codes "| id  |\n| 7    |\n| 42   |\n"
unfolding format
the_text = refl

-- A null pointer is shown like an empty string.
null_is_empty :
    (format (record { fields = id_column; rows = some (none ∷ []) ∷ [] })).text
    ≡ (format (record { fields = id_column; rows = some (some [] ∷ []) ∷ [] })).text
unfolding format
null_is_empty = refl

id_column-some : id_column ≢ []
id_column-some e = cc

small_table-IsShort : length (rendering small_table) < int_limit
unfolding format
small_table-IsShort = omega arith

two_rows-IsShort : IsShort id_column two_rows
unfolding format
two_rows-IsShort = omega arith

other_rows-IsShort : IsShort id_column other_rows
unfolding format
other_rows-IsShort = omega arith

format-exact_example :
    ((format small_table).text ≡ rendering small_table)
    × ((format small_table).cut ≡ false)
    × ((format small_table).overrun ≡ false)
unfolding cell_length
format-exact_example =
    format-exact small_table
      (
        id_column-some,
        ((omega arith, omega arith), tt),
        (((omega arith, omega arith), tt), (((omega arith, omega arith), tt), tt)),
      )
      small_table-IsShort

abbrev wide : Field
wide = record { name = codes "note"; max_length = 300 }

abbrev no_rs : Rs
no_rs = record { counter = other; nrows = 0; nfields = 0; ptr = none }

abbrev answers_with : Rows → Answer
answers_with rows = record {
  reply = result (record { fields = id_column; rows = rows });
  errno = 0;
  attempts = [];
}

three_servers :
    drv_query false lost [] true
      (answers_with two_rows ∷ answers_with other_rows ∷ answers_with with_blank ∷ [])
      no_rs
    ≡ some (record {
      status = error_none;
      rs = record { counter = read; nrows = 2; nfields = 1; ptr = none };
      reported = some (1 ∷ []);
    })
unfolding drv_query
three_servers = refl

-- "SELECT ... INTO" gives no result: the buffers that are compared are not set.
unset_buffer :
    drv_query false lost [] true
      (record { reply = no_result 1; errno = 0; attempts = [] }
        ∷ record { reply = no_result 1; errno = 0; attempts = [] }
        ∷ [])
      no_rs
    ≡ some (record {
      status = error_none;
      rs = record { counter = write; nrows = 1; nfields = 0; ptr = none };
      reported = none;
    })
unfolding drv_query
unset_buffer = refl

drv_query-Reports_example :
    (reported : List ℕ) × (drv_query false lost [] true
        (answers_with two_rows ∷ answers_with other_rows ∷ [])
        no_rs
      ≡ some (record {
        status = error_none;
        rs = record { counter = read; nrows = 2; nfields = 1; ptr = none };
        reported = some reported;
      }))
    × Reports two_rows 1 (other_rows ∷ []) reported
unfolding cell_length
drv_query-Reports_example =
    drv_query-Reports id_column id_column-some ((omega arith, omega arith), tt) two_rows
      (((omega arith, omega arith), tt), (((omega arith, omega arith), tt), tt)) two_rows-IsShort
      lost [] (answers_with two_rows) (answers_with other_rows ∷ []) (other_rows ∷ []) no_rs refl
      (
        refl,
        (
          (((omega arith, omega arith), tt), (((omega arith, omega arith), tt), tt)),
          other_rows-IsShort,
        ),
        tt,
      )

abbrev one_up : List Attempt
one_up = record { connects = true; stopping = false } ∷ []

abbrev first_good : Answer
first_good = record {
  reply = result (record { fields = id_column; rows = two_rows });
  errno = 0;
  attempts = one_up;
}

abbrev second_fails : Answer
second_fails = record { reply = query_fails; errno = 1213; attempts = one_up }

drv_query-failure_example :
    (v : Verdict) × ((p : Rs) × (drv_query false lost
          (codes "1213" ∷ [])
          true
          (first_good ∷ second_fails ∷ [])
          no_rs
        ≡ some (failed p v)))
    × Says lost (codes "1213" ∷ []) 0 (map handle (first_good ∷ second_fails ∷ [])) v
drv_query-failure_example =
    drv_query-failure lost (codes "1213" ∷ []) true first_good (second_fails ∷ []) no_rs
      (inr (inl (inl refl))) (inl refl, (inl refl, tt))

-- So it is fatal.
ignored_error_is_fatal :
    drv_query false lost (codes "1213" ∷ []) true (first_good ∷ second_fails ∷ []) no_rs
    ≡ some (record {
      status = error_fatal;
      rs = record { counter = error; nrows = 2; nfields = 1; ptr = none };
      reported = some [];
    })
unfolding drv_query
ignored_error_is_fatal = refl

check_error-first_example :
    (v : Verdict) × (check_error lost
        (codes "2013" ∷ [])
        (some (none ∷ some (record { errno = 2013; attempts = one_up }) ∷ []))
      ≡ some v)
    × Says lost
        (codes "2013" ∷ [])
        2013
        (none ∷ some (record { errno = 2013; attempts = one_up }) ∷ [])
        v
check_error-first_example =
    check_error-first lost (codes "2013" ∷ []) 1 (record { errno = 2013; attempts = one_up }) []
      (inl refl, tt)

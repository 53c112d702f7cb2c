-- ===== src/Mysql/Tests.antt =====
-- Queries of the MySQL driver (src/drivers/mysql/drv_mysql.c).
use sysbench.Prelude.{ℕ, ◌≡◌, refl, Bool, true, false, none, some, [], ◌∷◌, ◌==◌, ◌>>=◌}
use sysbench.Prelude.Text.{codes}
use sysbench.Counters.{write, other, reconnect}
use sysbench.Db.{error_none, error_ignorable}
use sysbench.Compare.Query.{query_fails, no_result, result, Answer, Rs}
use sysbench.Compare.Table.{Table, format}
use sysbench.Compare.Query as Q
use sysbench.Mysql.{drv_query}
use sysbench.Mysql.OneServer.{returned, unlinked, drv_query-one_server}

abbrev no_rs : Rs
no_rs = record { counter = other; nrows = 0; nfields = 0; ptr = none }

abbrev lost : ℕ → Bool
lost e = e == 2006

abbrev inserts : Answer
inserts = record { reply = no_result 3; errno = 0; attempts = [] }

abbrev goes_away : Answer
goes_away = record {
  reply = query_fails;
  errno = 2006;
  attempts =
      record { connects = false; stopping = false }
      ∷ record { connects = true; stopping = false }
      ∷ [];
}

rows_counted :
    drv_query false lost [] inserts no_rs
    ≡ some (record {
      status = error_none;
      rs = record { counter = write; nrows = 3; nfields = 0; ptr = none };
    })
unfolding drv_query
rows_counted = refl

connected_again :
    drv_query false lost (codes "all" ∷ []) goes_away no_rs
    ≡ some (record {
      status = error_ignorable;
      rs = record { counter = reconnect; nrows = 0; nfields = 0; ptr = none };
    })
unfolding drv_query
connected_again = refl

abbrev one_row : Table
one_row = record {
  fields = record { name = codes "id"; max_length = 2 } ∷ [];
  rows = some (some (codes "42") ∷ []) ∷ [];
}

abbrev selects : Answer
selects = record { reply = result one_row; errno = 0; attempts = [] }

one_row-inside : (format one_row).overrun ≡ false
unfolding format
one_row-inside = refl

drv_query-one_server_example : Q.drv_query false lost [] true (selects ∷ []) no_rs ≡ (
    drv_query false lost [] selects no_rs >>= (λ r. some (returned (unlinked (result one_row) r))))
drv_query-one_server_example = drv_query-one_server lost [] true selects no_rs one_row-inside

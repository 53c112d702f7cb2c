-- ===== src/Pgsql/Tests.antt =====
-- Statements with placeholders for PostgreSQL (src/drivers/pgsql/drv_pgsql.c).
use sysbench.Prelude.{
  ◌≡◌, refl, true, false, none, some, List, [], ◌∷◌, arith, replicate, ◌++◌, ◌>>=◌,
}
use sysbench.Prelude.Text.{Str, codes}
use sysbench.Pgsql.{start, placeholder, convert, drv_prepare}
use sysbench.Pgsql.Numbered.{drv_prepare-numbered}
use sysbench.Counters.{other}
use sysbench.Db.{error_none}
use sysbench.Pgsql.Query.{
  Row, PgResult, tuples_ok, fatal_error, other_status, PgConn, ResultSet, Answered, drv_query,
  drv_fetch_row, drv_free_results,
}
use sysbench.Pgsql.Rows.{fetch_each, drv_query-rows}

abbrev statement : Str
statement = codes "SELECT c FROM t WHERE id=? AND k=?"

converted :
    convert 2 statement
    ≡ some (record {
      buf = codes "SELECT c FROM t WHERE id=$1 AND k=$2";
      buflen = 256;
      need_realloc = false;
      vcnt = 3;
      overrun = false;
    })
unfolding convert
converted = refl

-- An empty query writes its NUL through a null pointer.
empty_query : convert 2 [] ≡ some (record start { overrun = true })
unfolding convert
empty_query = refl

-- Two rounds are needed for a placeholder at the end of the buffer.
one_round_is_short : convert 1 (replicate 254 b'x' ++ codes "?") ≡ none
unfolding convert
one_round_is_short = refl

drv_prepare-numbered_example :
    drv_prepare 2 true true true statement
    ≡ some (record {
      status = 0;
      emulated = false;
      query = some (codes "SELECT c FROM t WHERE id=$1 AND k=$2");
      nparams = 2;
      prepared = false;
      overrun = false;
    })
unfolding placeholder
drv_prepare-numbered_example =
    drv_prepare-numbered true b'S' (codes "ELECT c FROM t WHERE id=? AND k=?") (omega arith)

abbrev fresh : PgConn
fresh = record { sql_state = none; sql_errmsg = none; sent = []; live = 0 }

abbrev empty_set : ResultSet
empty_set = record { counter = other; nrows = 0; nfields = 0; ptr = none; row = 0 }

abbrev two_rows : List Row
two_rows = (some (codes "1") ∷ none ∷ []) ∷ (some (codes "2") ∷ some (codes "b") ∷ []) ∷ []

-- An error without an SQLSTATE, as for a lost connection: strdup of a null pointer.
lost_connection : drv_query fresh statement (fatal_error none []) empty_set ≡ none
unfolding drv_query
lost_connection = refl

-- A result of an unexpected status is never cleared.
unexpected_status :
    (drv_query fresh statement other_status empty_set
      >>= (λ k. some (drv_free_results k.conn k.rs).1.0.live))
    ≡ some 1
unfolding drv_query drv_free_results
unexpected_status = refl

drv_query-rows_example :
    (k : Answered) × (drv_query fresh statement (tuples_ok 2 two_rows) empty_set ≡ some k)
    × ((k.status ≡ error_none)
        × (((fetch_each 3 k.rs).0 ≡ two_rows)
            × ((drv_fetch_row (fetch_each 3 k.rs).1 ≡ none)
                × ((drv_free_results k.conn (fetch_each 3 k.rs).1).1.0.live ≡ 0))))
drv_query-rows_example =
    drv_query-rows fresh statement 2 two_rows empty_set 3 (omega arith) (omega arith)
      (refl, (refl, tt)) refl (omega arith)

abbrev deadlock : PgResult
deadlock = fatal_error (some (codes "40P01")) (codes "deadlock detected")

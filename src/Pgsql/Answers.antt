-- ===== src/Pgsql/Answers.antt =====
-- What pgsql_drv_query (src/drivers/pgsql/drv_pgsql.c) makes of each answer, with the statements
-- that it sends and the results that it holds.
use sysbench.Prelude.{
  ℕ, ◌≡◌, ◌↔◌, Bool, true, false, Option, none, some, [], ◌∷◌, ◌++◌, if◌then◌else◌, u32,
}
use sysbench.Prelude.Text.{Str, codes}
use sysbench.Counters.{write, other}
use sysbench.Db.{error_none, error_ignorable}
use sysbench.Pgsql.Query.{
  PgResult, tuples_ok, command_ok, fatal_error, other_status, PgConn, ResultSet, Answered, pq_exec,
  pq_clear, is_retryable, is_read, drv_free_results,
}

-- No unexpected status, and an SQLSTATE if there is an error.
abbrev pub HasState : PgResult → Type 0
HasState (tuples_ok nfields rows) = Unit {0}
HasState (command_ok changed) = Unit {0}
HasState (fatal_error none message) = ⊥
HasState (fatal_error (some state) message) = Unit {0}
HasState other_status = ⊥

abbrev pub is_rolled_back : PgResult → Bool
is_rolled_back (fatal_error (some state) message) = is_retryable state
is_rolled_back pgres = false

-- What a query comes to.
abbrev pub Settled : PgConn → Str → PgResult → Answered → Type 0
Settled c query a k =
    ((k.status ≡ error_ignorable) ↔ (is_rolled_back a ≡ true))
    × ((k.conn.sent ≡ c.sent ++ (query ∷ (if is_rolled_back a then codes "ROLLBACK" ∷ [] else [])))
        × ((drv_free_results k.conn k.rs).1.0.live ≡ c.live))

abbrev opened : PgConn → Str → PgConn
opened c query = pq_exec query (record c { sql_state = none; sql_errmsg = none })

-- What is returned for a command, by whether it has changed a row.
abbrev command_answer : PgConn → Str → ℕ → ResultSet → Bool → Option Answered
command_answer c query changed rs b =
    let counter = if b then write else other in
    some (record {
      status = error_none;
      conn = pq_clear (opened c query);
      rs = record rs {
        nrows = u32 changed;
        counter = counter;
        ptr = if is_read counter then some (command_ok changed) else none;
      };
    })

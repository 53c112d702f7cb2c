-- ===== src/Pgsql/Query.antt =====
-- src/drivers/pgsql/drv_pgsql.c: queries, the judgement of their results, and the reading of rows.
-- What the client library answers is an argument. A result belongs to the caller until PQclear.
use sysbench.Prelude.{
  ℕ, zero, suc, ◌+◌, ◌-◌, ◌^◌, Bool, true, false, Option, none, some, List, [], ◌∷◌, ◌++◌, ltb, leb,
  ◌||◌, if◌then◌else◌, ◌>>=◌, length, u32,
}
use sysbench.Prelude.Text.{Str, codes, str_eq}
use sysbench.Counters.{CounterType, read, write, other, error}
use sysbench.Db.{DbError, error_none, error_ignorable, error_fatal}

-- A row of a result, with nothing for NULL.
abbrev pub Row : Type 0
Row = List (Option Str)

-- What PQexec answers: rows with their number of fields; the number of rows a command has changed;
-- an error with its SQLSTATE, if it has one, and its message; any other status.
pub data PgResult : Type 0 where
  tuples_ok : ℕ → List Row → PgResult
  command_ok : ℕ → PgResult
  fatal_error : Option Str → Str → PgResult
  other_status : PgResult

-- The members of db_conn_t that are used, the statements that were sent, and the number of results
-- that are not yet cleared.
pub record PgConn : Type 0 where
  pub sql_state : Option Str
  pub sql_errmsg : Option Str
  pub sent : List Str
  pub live : ℕ

-- The members of db_result_t that are used; `row` is row.ptr, a number.
pub record ResultSet : Type 0 where
  pub counter : CounterType
  pub nrows : ℕ
  pub nfields : ℕ
  pub ptr : Option PgResult
  pub row : ℕ

-- What is returned, and what has become of the connection and the result set.
pub record Answered : Type 0 where
  pub status : DbError
  pub conn : PgConn
  pub rs : ResultSet

unfoldable pub pq_clear : PgConn → PgConn
pq_clear c = record c { live = c.live - 1 }

unfoldable pub pq_exec : Str → PgConn → PgConn
pq_exec query c = record c { sent = c.sent ++ (query ∷ []); live = c.live + 1 }

-- deadlock_detected, unique violation, serialization_failure
unfoldable pub is_retryable : Str → Bool
is_retryable state =
    str_eq state (codes "40P01") || str_eq state (codes "23505") || str_eq state (codes "40001")

-- pgsql_check_status; strdup of a missing SQLSTATE has no result.
unfoldable pub check_status : PgConn → PgResult → ResultSet → Option Answered
unfolding pq_clear pq_exec is_retryable
check_status c (tuples_ok nfields rows) rs = some (record {
  status = error_none;
  conn = c;
  rs = record rs { nrows = u32 (length rows); nfields = u32 nfields; counter = read };
})
check_status c (command_ok changed) rs = some (record {
  status = error_none;
  conn = pq_clear c;
  rs = record rs { nrows = u32 changed; counter = if ltb 0 (u32 changed) then write else other };
})
check_status c (fatal_error none message) rs = none
check_status c (fatal_error (some state) message) rs =
    let failed = record c { sql_state = some state; sql_errmsg = some message } in
    let rolled_back = pq_clear (pq_exec (codes "ROLLBACK") failed) in
    some (record {
      status = if is_retryable state then error_ignorable else error_fatal;
      conn = pq_clear (if is_retryable state then rolled_back else failed);
      rs = record rs { nrows = 0; counter = error };
    })
check_status c other_status rs =
    some (record { status = error_fatal; conn = c; rs = record rs { nrows = 0; counter = error } })

abbrev pub is_read : CounterType → Bool
is_read read = true
is_read _ = false

-- pgsql_drv_query
unfoldable pub drv_query : PgConn → Str → PgResult → ResultSet → Option Answered
unfolding pq_exec check_status
drv_query c query pgres rs =
    let sent = pq_exec query (record c { sql_state = none; sql_errmsg = none }) in
    check_status sent pgres rs >>= (λ k.
      some
        (record k { rs = record k.rs { ptr = if is_read k.rs.counter then some pgres else none } }))

-- (int) of an unsigned int, with 0 for the negative numbers: no row number is below either.
abbrev pub as_int : ℕ → ℕ
as_int n = if ltb n (2 ^ 31) then n else 0

-- The rows of a result.
abbrev pub rows_of : Option PgResult → List Row
rows_of (some (tuples_ok nfields rows)) = rows
rows_of pgres = []

unfoldable pub nth_row : List Row → ℕ → Row
nth_row [] n = []
nth_row (r ∷ rows) zero = r
nth_row (r ∷ rows) (suc n) = nth_row rows n

-- The loop over the fields of a row.
unfoldable pub read_fields : ℕ → Row → Row
read_fields zero row = []
read_fields (suc n) [] = []
read_fields (suc n) (value ∷ row) = value ∷ read_fields n row

-- pgsql_drv_fetch_row: the values and what becomes of the result set, nothing when it returns
-- DB_ERROR_IGNORABLE.
unfoldable pub drv_fetch_row : ResultSet → Option (Row × ResultSet)
unfolding nth_row read_fields
drv_fetch_row rs =
    if leb (as_int rs.nrows) rs.row
    then none
    else some (
      read_fields (as_int rs.nfields) (nth_row (rows_of rs.ptr) rs.row),
      record rs { row = suc rs.row },
    )

abbrev pub has_result : Option PgResult → Bool
has_result none = false
has_result (some pgres) = true

-- pgsql_drv_free_results: what it returns, the connection and the result set.
unfoldable pub drv_free_results : PgConn → ResultSet → ℕ × (PgConn × ResultSet)
unfolding pq_clear
drv_free_results c rs =
    if has_result rs.ptr then (0, (pq_clear c, record rs { ptr = none; row = 0 })) else (1, (c, rs))

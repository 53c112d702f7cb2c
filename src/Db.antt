-- ===== src/Db.antt =====
-- src/db_driver.c and src/db_driver.h: a database connection. The driver's operations are called
-- through pointers; what they return is an argument of each operation here, and the calls that
-- reach the driver are kept, the last one first.
pub mod Protocol
pub mod Obeys
pub mod Bulk
mod Tests
use sysbench.Prelude.{
  ℕ, zero, suc, ◌+◌, Bool, true, false, ◌||◌, Option, none, some, List, [], ◌∷◌, ◌==◌,
  if◌then◌else◌,
}
use sysbench.Prelude.Text.{Str}
use sysbench.Counters.{Counters, CounterType, read, error, reconnect, counter_inc}

-- db_error_t
pub data DbError : Type 0 where
  error_none error_ignorable error_fatal : DbError

-- db_conn_state_t
pub data ConnState : Type 0 where
  conn_ready conn_result_set conn_invalid : ConnState

-- db_result_t; a statement is its number, and `has_row` says that row.values is allocated.
pub record Result : Type 0 where
  pub counter : CounterType
  pub nrows : ℕ
  pub nfields : ℕ
  pub statement : Option ℕ
  pub has_row : Bool

-- What a driver's query, execute or next_result returns and writes to the result set.
pub record Reply : Type 0 where
  pub status : DbError
  pub counter : CounterType
  pub nrows : ℕ
  pub nfields : ℕ

-- The calls of driver operations.
pub data Call : Type 0 where
  prepares : Call
  executes : ℕ → Call
  next_of_statement : ℕ → Call
  fetches : Call
  queries : Str → Call
  asks_more : Call
  next_of_connection : Call
  frees : Call
  closes : ℕ → Call
  disconnects : Call
  reconnects : Call

-- db_conn_t without its fields for bulk inserts, the counters, and the driver's calls
pub record Session : Type 0 where
  pub error : DbError
  pub state : ConnState
  pub rs : Result
  pub thread_id : ℕ
  pub counters : Counters
  pub calls : List Call

abbrev pub is_none : DbError → Bool
is_none error_none = true
is_none _ = false

abbrev pub is_fatal : DbError → Bool
is_fatal error_fatal = true
is_fatal _ = false

abbrev pub is_read : CounterType → Bool
is_read read = true
is_read _ = false

-- The driver operation is called.
abbrev pub call_driver : Call → Session → Session
call_driver call s = record s { calls = call ∷ s.calls }

-- db_free_results_int; `rc` is what the driver returns and this returns.
unfoldable pub free_results_int : Session → Session
free_results_int s = record (call_driver frees s) {
  rs = record s.rs { nrows = 0; nfields = 0; statement = none; has_row = false };
  state = conn_ready;
}

unfoldable pub guard_in : ConnState → Bool → Session → Session × Bool
unfolding free_results_int
guard_in conn_ready freed s = (s, true)
guard_in conn_result_set freed s = (free_results_int s, freed)
guard_in conn_invalid freed s = (s, false)

-- The guard of most operations: what becomes of the session, and whether the operation goes on.
-- `freed` says that the driver can free the result set, if there is one.
unfoldable pub guard : Bool → Session → Session × Bool
unfolding guard_in
guard freed s = guard_in s.state freed s

-- What follows the driver's answer: the error and the result set are stored, the counter grows, and
-- a read without error gives a result set. The Boolean says whether it is returned.
unfoldable pub settle : Reply → Session → Session × Bool
unfolding counter_inc
settle r s =
    let t = record s {
      error = r.status;
      rs = record s.rs { counter = r.counter; nrows = r.nrows; nfields = r.nfields };
      counters = counter_inc s.counters s.thread_id r.counter;
    } in
    if is_none r.status
    then (if is_read r.counter
        then (record t { state = conn_result_set }, true)
        else (record t { state = conn_ready }, false))
    else (t, false)

-- db_query
unfoldable pub query : Bool → Reply → Str → Session → Session × Bool
unfolding guard settle
query freed r text s =
    let (t, go_on) = guard freed s in
    if go_on
    then settle r (call_driver (queries text) t)
    else (record t { error = error_fatal }, false)

-- db_execute; a statement that cannot be run leaves the error as it was.
unfoldable pub execute : Bool → Reply → ℕ → Session → Session × Bool
unfolding guard settle
execute freed r stmt s =
    let (t, go_on) = guard freed s in
    if go_on
    then settle r
        (call_driver (executes stmt) (record t { rs = record t.rs { statement = some stmt } }))
    else (t, false)

-- db_stmt_next_result; `supported` says that the driver has the operation.
unfoldable pub stmt_next_result : Bool → Bool → Reply → ℕ → Session → Session × Bool
unfolding guard settle
stmt_next_result supported freed r stmt s =
    let (t, go_on) = guard freed s in
    let u = record t { rs = record t.rs { statement = some stmt } } in
    if go_on
    then (if supported
        then settle r (call_driver (next_of_statement stmt) u)
        else (record u { error = error_none }, false))
    else (t, false)

-- db_next_result
unfoldable pub next_result : Bool → Bool → Reply → Session → Session × Bool
unfolding guard settle
next_result supported freed r s =
    let (t, go_on) = guard freed s in
    if go_on
    then (if supported
        then settle r (call_driver next_of_connection t)
        else (record t { error = error_none }, false))
    else (record t { error = error_fatal }, false)

unfoldable pub more_in : ConnState → Bool → Bool → Session → Session × Bool
more_in conn_result_set true more s = (call_driver asks_more s, more)
more_in _ _ more s = (s, false)

-- db_more_results; `more` is the driver's answer.
unfoldable pub more_results : Bool → Bool → Session → Session × Bool
unfolding more_in
more_results supported more s = more_in s.state supported more s

-- What db_fetch_row comes to: NULL, a row, or a call through a null pointer.
pub data Fetched : Type 0 where
  no_row : Fetched
  row : Fetched
  null_call : Fetched

unfoldable pub fetch_in : ConnState → Bool → Bool → Session → Session × Fetched
fetch_in conn_result_set supported found s =
    let t = record s { rs = record s.rs { has_row = true } } in
    if s.rs.nrows == 0 || s.rs.nfields == 0
    then (s, no_row)
    else if supported
    then (call_driver fetches t, if found then row else no_row)
    else (t, null_call)
fetch_in _ supported found s = (s, no_row)

-- db_fetch_row, when malloc succeeds
unfoldable pub fetch_row : Bool → Bool → Session → Session × Fetched
unfolding fetch_in
fetch_row supported found s = fetch_in s.state supported found s

unfoldable pub free_in : ConnState → Bool → Session → Session × Bool
unfolding free_results_int
free_in conn_result_set freed s = (free_results_int s, freed)
free_in _ freed s = (s, false)

-- db_free_results: whether it returns 0
unfoldable pub free_results : Bool → Session → Session × Bool
unfolding free_in
free_results freed s = free_in s.state freed s

-- db_close: the statement is closed and freed unless the guard stops it. After the guard the state
-- is ready, so that the second pair of checks in db_close does nothing.
unfoldable pub close : Bool → ℕ → Session → Session × Bool
unfolding guard
close freed stmt s =
    let (t, go_on) = guard freed s in
    if go_on then (call_driver (closes stmt) t, true) else (t, false)

unfoldable pub prepare_in : ConnState → Bool → Session → Session × Bool
prepare_in conn_invalid prepared s = (s, false)
prepare_in _ prepared s =
    let t = call_driver prepares s in
    if prepared then (t, true) else (record t { error = error_fatal }, false)

-- db_prepare; `prepared` says that the driver's operation returned 0.
unfoldable pub prepare : Bool → Session → Session × Bool
unfolding prepare_in
prepare prepared s = prepare_in s.state prepared s

-- The part of db_connection_close and db_connection_reconnect before the driver's operation: a
-- result set is freed, whatever the driver returns.
unfoldable pub drop_result : ConnState → Session → Session
unfolding free_results_int
drop_result conn_result_set s = free_results_int s
drop_result _ s = s

unfoldable pub close_in : ConnState → Session → Session
unfolding drop_result
close_in conn_invalid s = s
close_in st s = record (call_driver disconnects (drop_result st s)) { state = conn_invalid }

-- db_connection_close
unfoldable pub connection_close : Session → Session
unfolding close_in
connection_close s = close_in s.state s

unfoldable pub reconnect_in : ConnState → DbError → Session → Session × DbError
unfolding drop_result counter_inc
reconnect_in conn_invalid status s = (s, error_none)
reconnect_in st status s =
    let t = call_driver reconnects (drop_result st s) in
    if is_fatal status
    then (
      record t { state = conn_invalid; counters = counter_inc t.counters t.thread_id error },
      error_fatal,
    )
    else (
      record t { state = conn_ready; counters = counter_inc t.counters t.thread_id reconnect },
      error_none,
    )

-- db_connection_reconnect, of a driver that has the operation; `status` is the driver's answer.
unfoldable pub connection_reconnect : DbError → Session → Session × DbError
unfolding reconnect_in
connection_reconnect status s = reconnect_in s.state status s

-- ===== src/Db/Protocol.antt =====
-- What a driver may rely on: the order in which src/db_driver.c calls its operations.
use sysbench.Prelude.{ℕ, ◌≡◌, Bool, true, false, List, [], ◌∷◌}
use sysbench.Prelude.Text.{Str}
use sysbench.Db.{
  DbError, ConnState, conn_ready, conn_result_set, conn_invalid, Reply, Call, prepares, executes,
  next_of_statement, fetches, queries, asks_more, next_of_connection, frees, closes, disconnects,
  reconnects, Session, query, execute, stmt_next_result, next_result, more_results, fetch_row,
  free_results, close, prepare, connection_close, connection_reconnect,
}

-- The calls that can open a result set.
abbrev pub can_open : Call → Bool
can_open (executes stmt) = true
can_open (next_of_statement stmt) = true
can_open (queries text) = true
can_open next_of_connection = true
can_open _ = false

-- The protocol of a driver: the calls, the last one first, that lead from a state of its connection
-- to a state. A result set is freed before the next call that can open one, before a statement is
-- closed and before the connection is closed or made anew; it is freed once, and rows are fetched
-- only from an open one; after the connection is closed there are no calls.
pub data Protocol (from : ConnState) : List Call → ConnState → Type 0 where
  unused : Protocol from [] from
  opens :
      {calls : List Call} (c : Call)
      → can_open c ≡ true
      → Protocol from calls conn_ready
      → Protocol from (c ∷ calls) conn_result_set
  runs :
      {calls : List Call} (c : Call)
      → can_open c ≡ true
      → Protocol from calls conn_ready
      → Protocol from (c ∷ calls) conn_ready
  fetches_row :
      {calls : List Call}
      → Protocol from calls conn_result_set
      → Protocol from (fetches ∷ calls) conn_result_set
  asks :
      {calls : List Call}
      → Protocol from calls conn_result_set
      → Protocol from (asks_more ∷ calls) conn_result_set
  frees_result :
      {calls : List Call}
      → Protocol from calls conn_result_set
      → Protocol from (frees ∷ calls) conn_ready
  prepares_ready :
      {calls : List Call}
      → Protocol from calls conn_ready
      → Protocol from (prepares ∷ calls) conn_ready
  prepares_open :
      {calls : List Call}
      → Protocol from calls conn_result_set
      → Protocol from (prepares ∷ calls) conn_result_set
  closes_statement :
      {calls : List Call} (stmt : ℕ)
      → Protocol from calls conn_ready
      → Protocol from (closes stmt ∷ calls) conn_ready
  disconnected :
      {calls : List Call}
      → Protocol from calls conn_ready
      → Protocol from (disconnects ∷ calls) conn_invalid
  reconnected :
      {calls : List Call}
      → Protocol from calls conn_ready
      → Protocol from (reconnects ∷ calls) conn_ready
  lost :
      {calls : List Call}
      → Protocol from calls conn_ready
      → Protocol from (reconnects ∷ calls) conn_invalid

-- An operation on a connection, with the answers of the driver.
pub data Op : Type 0 where
  op_query : Bool → Reply → Str → Op
  op_execute : Bool → Reply → ℕ → Op
  op_stmt_next_result : Bool → Bool → Reply → ℕ → Op
  op_next_result : Bool → Bool → Reply → Op
  op_more_results : Bool → Bool → Op
  op_fetch_row : Bool → Bool → Op
  op_free_results : Bool → Op
  op_close : Bool → ℕ → Op
  op_prepare : Bool → Op
  op_connection_close : Op
  op_connection_reconnect : DbError → Op

unfoldable pub perform : Op → Session → Session
unfolding query execute stmt_next_result next_result more_results fetch_row free_results close
    prepare connection_close connection_reconnect
perform (op_query freed r text) s = (query freed r text s).0
perform (op_execute freed r stmt) s = (execute freed r stmt s).0
perform (op_stmt_next_result supported freed r stmt) s =
    (stmt_next_result supported freed r stmt s).0
perform (op_next_result supported freed r) s = (next_result supported freed r s).0
perform (op_more_results supported more) s = (more_results supported more s).0
perform (op_fetch_row supported found) s = (fetch_row supported found s).0
perform (op_free_results freed) s = (free_results freed s).0
perform (op_close freed stmt) s = (close freed stmt s).0
perform (op_prepare prepared) s = (prepare prepared s).0
perform op_connection_close s = connection_close s
perform (op_connection_reconnect status) s = (connection_reconnect status s).0

unfoldable pub perform_all : List Op → Session → Session
unfolding perform
perform_all [] s = s
perform_all (op ∷ ops) s = perform_all ops (perform op s)

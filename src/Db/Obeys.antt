-- ===== src/Db/Obeys.antt =====
-- The calls that the operations of src/db_driver.c make, against a driver's protocol.
use sysbench.Prelude.{
  ℕ, ◌≡◌, refl, sym, subst, Bool, true, false, ◌||◌, ◌==◌, some, List, [], ◌∷◌, if-elim,
}
use sysbench.Prelude.Text.{Str}
use sysbench.Db.{
  DbError, ConnState, conn_ready, conn_result_set, conn_invalid, Reply, Call, prepares, executes,
  next_of_statement, fetches, queries, asks_more, next_of_connection, closes, Session, is_none,
  is_read, is_fatal, guard_in, guard, settle, query, execute, stmt_next_result, next_result,
  more_in, more_results, fetch_in, fetch_row, free_in, free_results, close, prepare_in, prepare,
  drop_result, close_in, connection_close, reconnect_in, connection_reconnect, free_results_int,
  call_driver,
}
use sysbench.Db.Protocol.{
  can_open, Protocol, opens, runs, fetches_row, asks, frees_result, prepares_ready, prepares_open,
  closes_statement, disconnected, reconnected, lost, Op, op_query, op_execute, op_stmt_next_result,
  op_next_result, op_more_results, op_fetch_row, op_free_results, op_close, op_prepare,
  op_connection_close, op_connection_reconnect, perform, perform_all,
}

-- The session is where the protocol is.
abbrev pub Obeys : ConnState → Session → Type 0
Obeys from s = Protocol from s.calls s.state

-- So is the session that an operation returns with its value.
abbrev Returns : {A : Type 0} → ConnState → Session × A → Type 0
Returns from out = Obeys from out.0

module _ {from : ConnState} where
  at : (st : ConnState) (s : Session) → s.state ≡ st → Obeys from s → Protocol from s.calls st
  at st s e p = subst (Protocol from s.calls) e p

  guard_in-Obeys :
      (st : ConnState) (freed : Bool) (s : Session)
      → s.state ≡ st
      → Obeys from s
      → Obeys from (guard_in st freed s).0
        × ((guard_in st freed s).1 ≡ true → (guard_in st freed s).0.state ≡ conn_ready)
  unfolding guard_in free_results_int
  guard_in-Obeys conn_ready freed s e p = (p, λ _. e)
  guard_in-Obeys conn_result_set freed s e p = (frees_result (at conn_result_set s e p), λ _. refl)
  guard_in-Obeys conn_invalid freed s e p = (p, λ h. cc)

  settle-Obeys :
      (r : Reply) (c : Call) (s : Session)
      → can_open c ≡ true
      → s.state ≡ conn_ready
      → Obeys from s
      → Obeys from (settle r (call_driver c s)).0
  unfolding settle
  settle-Obeys r c s h e p =
      if-elim (Returns from) (is_none r.status)
        (λ _.
          if-elim (Returns from) (is_read r.counter) (λ _. opens c h (at conn_ready s e p))
            (λ _. runs c h (at conn_ready s e p)))
        (λ _. subst (Protocol from (c ∷ s.calls)) (sym e) (runs c h (at conn_ready s e p)))

  query-Obeys :
      (freed : Bool) (r : Reply) (text : Str) (s : Session)
      → Obeys from s
      → Obeys from (query freed r text s).0
  unfolding query guard
  query-Obeys freed r text s p =
      let (q, ready) = guard_in-Obeys s.state freed s refl p in
      let t = guard freed s in
      if-elim (Returns from) t.1 (λ on. settle-Obeys r (queries text) t.0 refl (ready on) q)
        (λ _. q)

  execute-Obeys :
      (freed : Bool) (r : Reply) (stmt : ℕ) (s : Session)
      → Obeys from s
      → Obeys from (execute freed r stmt s).0
  unfolding execute guard
  execute-Obeys freed r stmt s p =
      let (q, ready) = guard_in-Obeys s.state freed s refl p in
      let t = guard freed s in
      if-elim (Returns from) t.1
        (λ on.
          settle-Obeys r (executes stmt)
            (record t.0 { rs = record t.0.rs { statement = some stmt } }) refl (ready on) q)
        (λ _. q)

  stmt_next_result-Obeys :
      (supported freed : Bool) (r : Reply) (stmt : ℕ) (s : Session)
      → Obeys from s
      → Obeys from (stmt_next_result supported freed r stmt s).0
  unfolding stmt_next_result guard
  stmt_next_result-Obeys supported freed r stmt s p =
      let (q, ready) = guard_in-Obeys s.state freed s refl p in
      let t = guard freed s in
      if-elim (Returns from) t.1
        (λ on.
          if-elim (Returns from) supported
            (λ _.
              settle-Obeys r (next_of_statement stmt)
                (record t.0 { rs = record t.0.rs { statement = some stmt } }) refl (ready on) q)
            (λ _. q))
        (λ _. q)

  next_result-Obeys :
      (supported freed : Bool) (r : Reply) (s : Session)
      → Obeys from s
      → Obeys from (next_result supported freed r s).0
  unfolding next_result guard
  next_result-Obeys supported freed r s p =
      let (q, ready) = guard_in-Obeys s.state freed s refl p in
      let t = guard freed s in
      if-elim (Returns from) t.1
        (λ on.
          if-elim (Returns from) supported
            (λ _. settle-Obeys r next_of_connection t.0 refl (ready on) q) (λ _. q))
        (λ _. q)

  close-Obeys :
      (freed : Bool) (stmt : ℕ) (s : Session) → Obeys from s → Obeys from (close freed stmt s).0
  unfolding close guard
  close-Obeys freed stmt s p =
      let (q, ready) = guard_in-Obeys s.state freed s refl p in
      let t = guard freed s in
      if-elim (Returns from) t.1
        (λ on.
          subst (Protocol from (closes stmt ∷ t.0.calls)) (sym (ready on))
            (closes_statement stmt (at conn_ready t.0 (ready on) q)))
        (λ _. q)

  more_in-Obeys :
      (st : ConnState) (supported more : Bool) (s : Session)
      → s.state ≡ st
      → Obeys from s
      → Obeys from (more_in st supported more s).0
  unfolding more_in
  more_in-Obeys conn_ready supported more s e p = p
  more_in-Obeys conn_result_set true more s e p =
      subst (Protocol from (asks_more ∷ s.calls)) (sym e) (asks (at conn_result_set s e p))
  more_in-Obeys conn_result_set false more s e p = p
  more_in-Obeys conn_invalid supported more s e p = p

  fetch_in-Obeys :
      (st : ConnState) (supported found : Bool) (s : Session)
      → s.state ≡ st
      → Obeys from s
      → Obeys from (fetch_in st supported found s).0
  unfolding fetch_in
  fetch_in-Obeys conn_ready supported found s e p = p
  fetch_in-Obeys conn_result_set supported found s e p =
      if-elim (Returns from) (s.rs.nrows == 0 || s.rs.nfields == 0) (λ _. p)
        (λ _.
          if-elim (Returns from) supported
            (λ _.
              subst (Protocol from (fetches ∷ s.calls)) (sym e)
                (fetches_row (at conn_result_set s e p)))
            (λ _. p))
  fetch_in-Obeys conn_invalid supported found s e p = p

  free_in-Obeys :
      (st : ConnState) (freed : Bool) (s : Session)
      → s.state ≡ st
      → Obeys from s
      → Obeys from (free_in st freed s).0
  unfolding free_in free_results_int
  free_in-Obeys conn_ready freed s e p = p
  free_in-Obeys conn_result_set freed s e p = frees_result (at conn_result_set s e p)
  free_in-Obeys conn_invalid freed s e p = p

  prepare_in-Obeys :
      (st : ConnState) (prepared : Bool) (s : Session)
      → s.state ≡ st
      → Obeys from s
      → Obeys from (prepare_in st prepared s).0
  unfolding prepare_in
  prepare_in-Obeys conn_ready prepared s e p =
      let q =
        subst (Protocol from (prepares ∷ s.calls)) (sym e) (prepares_ready (at conn_ready s e p)) in
      if-elim (Returns from) prepared (λ _. q) (λ _. q)
  prepare_in-Obeys conn_result_set prepared s e p =
      let q =
        subst (Protocol from (prepares ∷ s.calls)) (sym e)
          (prepares_open (at conn_result_set s e p)) in
      if-elim (Returns from) prepared (λ _. q) (λ _. q)
  prepare_in-Obeys conn_invalid prepared s e p = p

  close_in-Obeys :
      (st : ConnState) (s : Session) → s.state ≡ st → Obeys from s → Obeys from (close_in st s)
  unfolding close_in drop_result free_results_int
  close_in-Obeys conn_ready s e p = disconnected (at conn_ready s e p)
  close_in-Obeys conn_result_set s e p = disconnected (frees_result (at conn_result_set s e p))
  close_in-Obeys conn_invalid s e p = p

  reconnect_in-Obeys :
      (st : ConnState) (status : DbError) (s : Session)
      → s.state ≡ st
      → Obeys from s
      → Obeys from (reconnect_in st status s).0
  unfolding reconnect_in drop_result free_results_int
  reconnect_in-Obeys conn_ready status s e p =
      let q = at conn_ready s e p in
      if-elim (Returns from) (is_fatal status) (λ _. lost q) (λ _. reconnected q)
  reconnect_in-Obeys conn_result_set status s e p =
      let q = frees_result (at conn_result_set s e p) in
      if-elim (Returns from) (is_fatal status) (λ _. lost q) (λ _. reconnected q)
  reconnect_in-Obeys conn_invalid status s e p = p

perform-Obeys :
    {from : ConnState} (op : Op) (s : Session) → Obeys from s → Obeys from (perform op s)
unfolding perform more_results fetch_row free_results prepare connection_close connection_reconnect
perform-Obeys (op_query freed r text) s p = query-Obeys freed r text s p
perform-Obeys (op_execute freed r stmt) s p = execute-Obeys freed r stmt s p
perform-Obeys (op_stmt_next_result supported freed r stmt) s p =
    stmt_next_result-Obeys supported freed r stmt s p
perform-Obeys (op_next_result supported freed r) s p = next_result-Obeys supported freed r s p
perform-Obeys (op_more_results supported more) s p = more_in-Obeys s.state supported more s refl p
perform-Obeys (op_fetch_row supported found) s p = fetch_in-Obeys s.state supported found s refl p
perform-Obeys (op_free_results freed) s p = free_in-Obeys s.state freed s refl p
perform-Obeys (op_close freed stmt) s p = close-Obeys freed stmt s p
perform-Obeys (op_prepare prepared) s p = prepare_in-Obeys s.state prepared s refl p
perform-Obeys op_connection_close s p = close_in-Obeys s.state s refl p
perform-Obeys (op_connection_reconnect status) s p = reconnect_in-Obeys s.state status s refl p

-- Whatever operations are made on a connection and whatever the driver answers, the driver's
-- operations are called in the order of its protocol: from a session that is where the protocol is,
-- all further operations keep it there.
pub perform_all-Obeys :
    {from : ConnState} (ops : List Op) (s : Session) → Obeys from s → Obeys from (perform_all ops s)
unfolding perform_all
perform_all-Obeys [] s p = p
perform_all-Obeys (op ∷ ops) s p = perform_all-Obeys ops (perform op s) (perform-Obeys op s p)

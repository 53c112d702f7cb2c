-- ===== src/Mysql.antt =====
-- src/drivers/mysql/drv_mysql.c: queries, prepared statements that are not emulated, and the
-- judgement of errors, on a connection that is there. What the client library answers is an
-- argument, in the form that it has for the comparing driver.
pub mod OneServer
mod Tests
use sysbench.Prelude.{
  ℕ, Bool, true, false, not, Option, none, some, List, [], ◌∷◌, ltb, ◌==◌, ◌||◌, if◌then◌else◌,
  ◌>>=◌, length, u32,
}
use sysbench.Prelude.Text.{Str}
use sysbench.Counters.{CounterType, read, write, other, error, reconnect}
use sysbench.Db.{DbError, error_none, error_ignorable, error_fatal}
use sysbench.Compare.Table.{Table}
use sysbench.Compare.Errors.{Attempt, retry, ignores}
use sysbench.Compare.Query.{Reply, query_fails, no_result, store_fails, result, Answer, Rs}

-- mysql_drv_reconnect, by the attempts to connect; none while it goes on.
unfoldable pub drv_reconnect : List Attempt → Option DbError
unfolding retry
drv_reconnect attempts =
    retry attempts >>= (λ connected. some (if connected then error_ignorable else error_fatal))

-- What check_error returns, and the counter that it sets.
pub record Verdict : Type 0 where
  pub status : DbError
  pub counter : CounterType

-- check_error, by the list of ignored errors; `lost` says which errors make it reconnect.
unfoldable pub check_error : (ℕ → Bool) → List Str → ℕ → List Attempt → Option Verdict
unfolding drv_reconnect ignores
check_error lost [] e attempts = some (record { status = error_fatal; counter = error })
check_error lost (val ∷ ignored) e attempts =
    let rest = check_error lost ignored e attempts in
    let again =
      drv_reconnect attempts >>= (λ s. some (record { status = s; counter = reconnect })) in
    let passes = some (record { status = error_ignorable; counter = error }) in
    if ignores val e then (if lost e then again else passes) else rest

-- What is returned, and the result set.
pub record Outcome : Type 0 where
  pub status : DbError
  pub rs : Rs

-- An error ends the function.
unfoldable pub fails : (ℕ → Bool) → List Str → Answer → Rs → Option Outcome
unfolding check_error
fails lost ignored a rs =
    check_error lost ignored a.errno a.attempts
    >>= (λ v. some (record { status = v.status; rs = record rs { counter = v.counter } }))

-- mysql_drv_query after its first call has answered; none when reconnecting does not end.
unfoldable pub settle_query : (ℕ → Bool) → List Str → Answer → Rs → Reply → Option Outcome
unfolding fails
settle_query lost ignored a rs query_fails = fails lost ignored a rs
settle_query lost ignored a rs store_fails = fails lost ignored a rs
settle_query lost ignored a rs (no_result affected) = some (record {
  status = error_none;
  rs =
      if ltb 0 (u32 affected)
      then record rs { counter = write; nrows = u32 affected }
      else record rs { counter = other };
})
settle_query lost ignored a rs (result t) = some (record {
  status = error_none;
  rs = record {
    counter = read;
    nrows = u32 (length t.rows);
    nfields = length t.fields;
    ptr = some t;
  };
})

-- mysql_drv_query
unfoldable pub drv_query : Bool → (ℕ → Bool) → List Str → Answer → Rs → Option Outcome
unfolding settle_query
drv_query dry_run lost ignored a rs =
    if dry_run
    then some (record { status = error_none; rs = rs })
    else settle_query lost ignored a rs a.reply

-- The part of mysql_drv_execute for a statement that is not emulated: mysql_stmt_execute fails,
-- mysql_stmt_store_result fails, the statement has no columns, or it has a result.
unfoldable pub execute_prepared : (ℕ → Bool) → List Str → Answer → Rs → Reply → Option Outcome
unfolding fails
execute_prepared lost ignored a rs query_fails = fails lost ignored a rs
execute_prepared lost ignored a rs store_fails = fails lost ignored a rs
execute_prepared lost ignored a rs (no_result affected) = some (record {
  status = error_none;
  rs = record rs { counter = if ltb 0 (u32 affected) then write else other; nrows = u32 affected };
})
execute_prepared lost ignored a rs (result t) = some (record {
  status = error_none;
  rs = record rs { counter = read; nrows = u32 (length t.rows); nfields = u32 (length t.fields) };
})

-- ===== src/Compare/Errors.antt =====
-- src/drivers/compare/drv_compare.c: what an error of the client library becomes, and reconnecting.
-- The error numbers and the outcome of each attempt to connect are the library's answers.
pub mod Laws
use sysbench.Prelude.{
  ℕ, Bool, true, false, Option, none, some, List, [], ◌∷◌, ◌==◌, ◌||◌, if◌then◌else◌, ◌>>=◌,
  u32_mod,
}
use sysbench.Prelude.Int.{to_word}
use sysbench.Prelude.Text.{Str, codes, str_eq}
use sysbench.Options.Size.{strtol}
use sysbench.Counters.{CounterType, error, reconnect}
use sysbench.Db.{DbError, error_none, error_ignorable, error_fatal}

-- Whether mysql_drv_real_connect connects, and sb_globals.error when it does not.
pub record Attempt : Type 0 where
  pub connects : Bool
  pub stopping : Bool

-- A connection whose `mysql` is not a null pointer: mysql_errno, and the attempts to come.
pub record Handle : Type 0 where
  pub errno : ℕ
  pub attempts : List Attempt

-- The loop that connects again: none while it has not ended, then whether it has connected.
unfoldable pub retry : List Attempt → Option Bool
retry [] = none
retry (a ∷ attempts) =
    let rest = retry attempts in
    if a.connects then some true else if a.stopping then some false else rest

unfoldable pub reconnect_each : List (Option Handle) → Option DbError
unfolding retry
reconnect_each [] = some error_ignorable
reconnect_each (none ∷ conns) = reconnect_each conns
reconnect_each (some h ∷ conns) =
    let rest = reconnect_each conns in
    retry h.attempts >>= (λ connected. if connected then rest else some error_fatal)

-- mysql_drv_reconnect; the connections are none when sb_conn->ptr is a null pointer.
unfoldable pub drv_reconnect : Option (List (Option Handle)) → Option DbError
unfolding reconnect_each
drv_reconnect none = some error_fatal
drv_reconnect (some []) = some error_fatal
drv_reconnect (some (c ∷ conns)) = reconnect_each (c ∷ conns)

-- What check_error returns, stores in *counter and stores in sql_errno, if it does.
pub record Verdict : Type 0 where
  pub status : DbError
  pub counter : Option CounterType
  pub sql_errno : Option ℕ

-- The test of an element of --mysql-ignore-errors; `(unsigned int)atoi(val)` is strtol's number,
-- cut to 32 bits.
unfoldable pub ignores : Str → ℕ → Bool
unfolding strtol
ignores val e = e == to_word u32_mod (strtol val).0 || str_eq val (codes "all")

-- An ignored error; `lost` says which errors are CR_SERVER_LOST, CR_SERVER_GONE_ERROR,
-- CR_TCP_CONNECTION or CR_SERVER_LOST_EXTENDED.
unfoldable pub ignored_error : (ℕ → Bool) → ℕ → List (Option Handle) → Option Verdict
unfolding drv_reconnect
ignored_error lost e conns =
    let again =
      drv_reconnect (some conns)
      >>= (λ s. some (record { status = s; counter = some reconnect; sql_errno = some e })) in
    if lost e
    then again
    else some (record { status = error_ignorable; counter = some error; sql_errno = some e })

-- The loop over --mysql-ignore-errors.
unfoldable pub judge : (ℕ → Bool) → List Str → ℕ → List (Option Handle) → Option Verdict
unfolding ignores ignored_error
judge lost [] e conns =
    some (record { status = error_fatal; counter = some error; sql_errno = some e })
judge lost (val ∷ ignored) e conns =
    let rest = judge lost ignored e conns in
    if ignores val e then ignored_error lost e conns else rest

-- The loop over the connections: the first that is not a null pointer decides.
unfoldable pub judge_first :
    (ℕ → Bool) → List Str → List (Option Handle) → List (Option Handle) → Option Verdict
unfolding judge
judge_first lost ignored conns [] =
    some (record { status = error_none; counter = none; sql_errno = none })
judge_first lost ignored conns (none ∷ rest) = judge_first lost ignored conns rest
judge_first lost ignored conns (some h ∷ rest) = judge lost ignored h.errno conns

-- check_error
unfoldable pub check_error : (ℕ → Bool) → List Str → Option (List (Option Handle)) → Option Verdict
unfolding judge_first
check_error lost ignored none =
    some (record { status = error_fatal; counter = none; sql_errno = none })
check_error lost ignored (some []) =
    some (record { status = error_fatal; counter = none; sql_errno = none })
check_error lost ignored (some (c ∷ conns)) = judge_first lost ignored (c ∷ conns) (c ∷ conns)

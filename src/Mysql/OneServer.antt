-- ===== src/Mysql/OneServer.antt =====
-- The MySQL driver (src/drivers/mysql/drv_mysql.c) and the comparing driver
-- (src/drivers/compare/drv_compare.c) with one server.
use sysbench.Prelude.{
  ℕ, ◌≡◌, ◌∙◌, refl, ap, Bool, true, false, Option, none, some, List, [], ◌∷◌, if◌then◌else◌, ◌>>=◌,
  ltb, inl, inr, Bool-cases, u32,
}
use sysbench.Prelude.Text.{Str}
use sysbench.Counters.{CounterType, reconnect}
use sysbench.Db.{DbError, error_ignorable, error_fatal}
use sysbench.Compare.Table.{format}
use sysbench.Compare.Errors.{
  Attempt, Handle, retry, reconnect_each, ignores, ignored_error, judge, judge_first,
}
use sysbench.Compare.Query.{
  Reply, query_fails, no_result, store_fails, result, Answer, Rs, each_connection, take_reply,
  compare_buffers, differing, handle, failed, Returned,
}
use sysbench.Mysql.{
  Verdict, check_error, drv_reconnect, Outcome, fails, settle_query, drv_query, execute_prepared,
}
use sysbench.Compare.Errors as E
use sysbench.Compare.Query as Q

-- The comparing driver's verdict on the error of its only server.
lift : ℕ → Verdict → E.Verdict
lift e v = record { status = v.status; counter = some v.counter; sql_errno = some e }

bind_retry :
    (e : ℕ) (r : Option Bool)
    → ((r >>= (λ connected. if connected then some error_ignorable else some error_fatal))
        >>= (λ s. some (record { status = s; counter = some reconnect; sql_errno = some e })))
      ≡ (((r >>= (λ connected. some (if connected then error_ignorable else error_fatal)))
            >>= (λ s. some (record { status = s; counter = reconnect })))
          >>= (λ v. some (lift e v)))
unfolding lift
bind_retry e none = refl
bind_retry e (some true) = refl
bind_retry e (some false) = refl

judge-check_error :
    (lost : ℕ → Bool) (ignored : List Str) (e : ℕ) (attempts : List Attempt)
    → judge lost ignored e (some (record { errno = e; attempts = attempts }) ∷ [])
      ≡ (check_error lost ignored e attempts >>= (λ v. some (lift e v)))
unfolding judge ignored_error E.drv_reconnect reconnect_each check_error drv_reconnect lift
judge-check_error lost [] e attempts = refl
judge-check_error lost (val ∷ ignored) e attempts = elim (Bool-cases (ignores val e)) [
  | inl hit ↦ elim (Bool-cases (lost e)) [
    | inl gone ↦ rw (hit, gone) (bind_retry e (retry attempts))
    | inr alive ↦ rw (hit, alive) refl
  ]
  | inr miss ↦ rw miss (judge-check_error lost ignored e attempts)
]

-- What the comparing driver returns when nothing is reported.
abbrev pub returned : Outcome → Returned
returned o = record { status = o.status; rs = o.rs; reported = some [] }

bind_failed :
    (e : ℕ) (rs : Rs) (o : Option Verdict)
    → ((o >>= (λ v. some (lift e v))) >>= (λ v. some (failed rs v))) ≡ (
        (o >>= (λ v. some (record { status = v.status; rs = record rs { counter = v.counter } })))
        >>= (λ r. some (returned r)))
unfolding lift failed
bind_failed e rs none = refl
bind_failed e rs (some v) = refl

-- A SELECT fails, or has a result whose text the comparing driver writes within its buffer.
abbrev pub IsComparable : Bool → Reply → Type 0
IsComparable true (no_result affected) = ⊥
IsComparable true (result t) = (format t).overrun ≡ false
IsComparable _ _ = Unit {0}

-- A result without the pointer to it, which the comparing driver does not keep.
abbrev pub unlinked : Reply → Outcome → Outcome
unlinked (result t) o = record o { rs = record o.rs { ptr = none } }
unlinked _ o = o

module _ (lost : ℕ → Bool) (ignored : List Str) (e : ℕ) (attempts : List Attempt) (rs : Rs) where
  only : Reply → Answer
  only reply = record { reply = reply; errno = e; attempts = attempts }

  failing :
      (E.check_error lost ignored (some (some (record { errno = e; attempts = attempts }) ∷ []))
        >>= (λ v. some (failed rs v)))
      ≡ (fails lost ignored (record { reply = query_fails; errno = e; attempts = attempts }) rs
          >>= (λ r. some (returned r)))
  unfolding E.check_error judge_first fails
  failing =
      ap (λ o. o >>= (λ v. some (failed rs v))) (judge-check_error lost ignored e attempts)
      ∙ bind_failed e rs (check_error lost ignored e attempts)

  same_as_mysql :
      (select : Bool) (reply : Reply)
      → IsComparable select reply
      → Q.drv_query false lost ignored select (only reply ∷ []) rs ≡ (
          drv_query false lost ignored (only reply) rs
          >>= (λ r. some (returned (unlinked reply r))))
  unfolding Q.drv_query each_connection take_reply compare_buffers differing drv_query settle_query
      fails only
  same_as_mysql select query_fails h = failing
  same_as_mysql select store_fails h = failing
  same_as_mysql true (no_result affected) h = absurd h
  same_as_mysql false (no_result affected) h = refl
  same_as_mysql true (result t) h = refl
  same_as_mysql false (result t) h = refl

-- With one server, for a statement that fails, is no SELECT, or is a SELECT with a result whose
-- text is written within the comparing driver's buffer, mysql_drv_query of the comparing driver
-- returns what that of the MySQL driver does, with the same counter and numbers of rows and fields
-- in the result set, and reports nothing; but where the MySQL driver leaves the result in rs->ptr,
-- it leaves a null pointer there.
pub drv_query-one_server :
    (lost : ℕ → Bool) (ignored : List Str) (select : Bool) (a : Answer) (rs : Rs)
    → IsComparable select a.reply
    → Q.drv_query false lost ignored select (a ∷ []) rs
      ≡ (drv_query false lost ignored a rs >>= (λ r. some (returned (unlinked a.reply r))))
unfolding only
drv_query-one_server lost ignored select a rs h =
    same_as_mysql lost ignored a.errno a.attempts rs select a.reply h

abbrev pub counted : Outcome → DbError × CounterType
counted r = (r.status, r.rs.counter)

-- A prepared statement of the MySQL driver is counted as the same query is, and fails as it does.
pub execute_prepared-counter :
    (lost : ℕ → Bool) (ignored : List Str) (a : Answer) (rs : Rs) (reply : Reply)
    → (execute_prepared lost ignored a rs reply >>= (λ r. some (counted r)))
      ≡ (settle_query lost ignored a rs reply >>= (λ r. some (counted r)))
unfolding execute_prepared settle_query
execute_prepared-counter lost ignored a rs query_fails = refl
execute_prepared-counter lost ignored a rs store_fails = refl
execute_prepared-counter lost ignored a rs (result t) = refl
execute_prepared-counter lost ignored a rs (no_result affected) =
    elim (Bool-cases (ltb 0 (u32 affected))) [
      | inl some_row ↦ rw some_row refl
      | inr no_row ↦ rw no_row refl
    ]

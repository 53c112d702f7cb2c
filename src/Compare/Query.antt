-- ===== src/Compare/Query.antt =====
-- src/drivers/compare/drv_compare.c: mysql_drv_query, which sends a statement to every server and
-- prints the results of a SELECT that differ from the first server's. The servers' answers are
-- arguments.
pub mod Laws
mod Tests
use sysbench.Prelude.{
  ℕ, zero, suc, ◌%◌, Bool, true, false, not, Option, none, some, List, [], ◌∷◌, ◌++◌, ltb, ◌==◌,
  ◌&&◌, if◌then◌else◌, ◌>>=◌, length, map, u32,
}
use sysbench.Prelude.Text.{Str, str_eq}
use sysbench.Counters.{CounterType, read, write, other}
use sysbench.Db.{DbError, error_none}
use sysbench.Compare.Table.{Table, Buf, format}
use sysbench.Compare.Errors.{Attempt, Handle, Verdict, check_error}

-- What a server's connection answers: mysql_real_query fails; mysql_store_result gives no result,
-- without an error and for a statement without columns, of which the affected rows are told; it
-- gives no result otherwise; or it gives one.
pub data Reply : Type 0 where
  query_fails : Reply
  no_result : ℕ → Reply
  store_fails : Reply
  result : Table → Reply

-- With what mysql_errno says afterwards, and what connecting again would.
pub record Answer : Type 0 where
  pub reply : Reply
  pub errno : ℕ
  pub attempts : List Attempt

-- The members of db_result_t that are set; `ptr` is the result that rs->ptr points to, none for a
-- null pointer.
pub record Rs : Type 0 where
  pub counter : CounterType
  pub nrows : ℕ
  pub nfields : ℕ
  pub ptr : Option Table

-- The result set and the buffers, the first connection's first; none is one that is not set.
pub record Progress : Type 0 where
  pub rs : Rs
  pub buffers : List (Option Buf)

-- Of the first connection, what the result set says; `false` marks a return.
unfoldable pub take_reply : Bool → Bool → Reply → Rs → Rs × Option Buf × Bool
unfolding format
take_reply select first query_fails rs = (rs, none, false)
take_reply select first store_fails rs = (rs, none, false)
take_reply select first (no_result affected) rs = (
  if first
      then (if ltb 0 (u32 affected)
          then record rs { counter = write; nrows = u32 affected }
          else record rs { counter = other })
      else rs,
  none,
  true,
)
take_reply select first (result t) rs = (
  if first
      then record {
        counter = read;
        nrows = u32 (length t.rows);
        nfields = length t.fields;
        ptr = none;
      }
      else rs,
  if select then some (format t) else none,
  true,
)

-- The loop over the connections, and whether it ends without a return.
unfoldable pub each_connection : Bool → Bool → List Answer → Rs → Progress × Bool
unfolding take_reply
each_connection select first [] rs = (record { rs = rs; buffers = [] }, true)
each_connection select first (a ∷ answers) rs =
    let (rs', buffer, goes_on) = take_reply select first a.reply rs in
    let (p, ended) = each_connection select false answers rs' in
    if goes_on
    then (record p { buffers = buffer ∷ p.buffers }, ended)
    else (record { rs = rs'; buffers = [] }, false)

-- The connections whose text differs from the first one's, from a number on; none when a buffer is
-- read that is not set.
unfoldable pub differing : Str → ℕ → List (Option Buf) → Option (List ℕ)
differing text j [] = some []
differing text j (none ∷ buffers) = none
differing text j (some b ∷ buffers) =
    differing text (suc j) buffers
    >>= (λ rest. some (if str_eq text b.text then rest else j ∷ rest))

unfoldable pub compare_buffers : List (Option Buf) → Option (List ℕ)
unfolding differing
compare_buffers [] = none
compare_buffers (none ∷ buffers) = none
compare_buffers (some b ∷ buffers) = differing b.text 1 buffers

-- What mysql_drv_query returns and leaves in the result set, and the connections it reports; these
-- are none when it reads a buffer that is not set.
pub record Returned : Type 0 where
  pub status : DbError
  pub rs : Rs
  pub reported : Option (List ℕ)

abbrev pub handle : Answer → Option Handle
handle a = some (record { errno = a.errno; attempts = a.attempts })

unfoldable pub failed : Rs → Verdict → Returned
failed rs v = record {
  status = v.status;
  rs = elim v.counter [ none ↦ rs | some c ↦ record rs { counter = c } ];
  reported = some [];
}

-- mysql_drv_query; none when reconnecting does not end.
unfoldable pub drv_query : Bool → (ℕ → Bool) → List Str → Bool → List Answer → Rs → Option Returned
unfolding check_error each_connection compare_buffers failed
drv_query dry_run lost ignored select answers rs =
    let (p, ended) = each_connection select true answers rs in
    let judged =
      check_error lost ignored (some (map handle answers)) >>= (λ v. some (failed p.rs v)) in
    let reported = if select then compare_buffers p.buffers else some [] in
    if dry_run
    then some (record { status = error_none; rs = rs; reported = some [] })
    else if ended
    then some (record { status = error_none; rs = p.rs; reported = reported })
    else judged

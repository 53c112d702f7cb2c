-- ===== src/Compare/Execute.antt =====
-- src/drivers/compare/drv_compare.c: mysql_drv_execute, which executes a prepared statement on
-- every server and prints the results of a SELECT that differ from the first server's.
pub mod Text
pub mod Reports
mod Tests
use sysbench.Prelude.{
  ℕ, zero, suc, ◌+◌, ◌<◌, Bool, true, false, not, Option, none, some, List, [], ◌∷◌, ◌++◌, ltb, leb,
  ◌==◌, ◌&&◌, ◌||◌, if◌then◌else◌, ◌>>=◌, length, map, u32,
}
use sysbench.Prelude.Text.{Str, codes}
use sysbench.Counters.{CounterType, other}
use sysbench.Db.{DbError, error_none, error_fatal}
use sysbench.Compare.Placeholders.{decimal}
use sysbench.Compare.Table.{Buf, empty_buf, print, until_nul}
use sysbench.Compare.Errors.{Attempt, Handle, Verdict, check_error}
use sysbench.Compare.Query.{Rs, compare_buffers}

-- A value in the buffer of its column, whose type is MYSQL_TYPE_LONG or MYSQL_TYPE_STRING, as many
-- bytes as mysql_stmt_fetch says. The bytes of a MYSQL_TYPE_LONG are those of an int.
abbrev pub Value : Type 0
Value = Option Str

-- The result of a statement: the names of its fields, and its rows.
pub record Sheet : Type 0 where
  pub names : List Str
  pub rows : List (List Value)

-- What the client library answers for a statement: whether mysql_stmt_result_metadata gives
-- something, whether mysql_stmt_bind_result, mysql_stmt_execute and mysql_stmt_store_result
-- succeed, the numbers of rows and fields, the result, what mysql_errno says of its connection, and
-- what connecting again would.
pub record Run : Type 0 where
  pub metadata : Bool
  pub binds : Bool
  pub executes : Bool
  pub stores : Bool
  pub nrows : ℕ
  pub nfields : ℕ
  pub sheet : Sheet
  pub errno : ℕ
  pub attempts : List Attempt

-- How the function ends: by returning a db_error_t, by returning -1, or by exit(0).
pub data Ending : Type 0 where
  returns : DbError → Ending
  returns_minus_one : Ending
  exits : Ending

-- strncasecmp(s, prefix, strlen(prefix)) == 0, for a prefix in lower case
abbrev lower : ℕ → ℕ
lower c = if leb b'A' c && leb c b'Z' then c + 32 else c

unfoldable pub begins : Str → Str → Bool
begins [] s = true
begins (c ∷ prefix) [] = false
begins (c ∷ prefix) (d ∷ s) = (lower d == c) && begins prefix s

unfoldable pub is_dml : Str → Bool
unfolding begins
is_dml query =
    begins (codes "insert") query
    || begins (codes "update") query
    || begins (codes "delete") query
    || begins (codes "replace") query

unfoldable pub is_select : Str → Bool
unfolding begins
is_select query = begins (codes "select") query

-- "  %s: NULL " and "  %s: %.*s (length: %lu) "
unfoldable pub value_text : Str → Value → Str
unfolding decimal until_nul
value_text name none = codes "  " ++ (name ++ codes ": NULL ")
value_text name (some v) =
    codes "  "
    ++ (name
        ++ (codes ": "
            ++ (until_nul v ++ (codes " (length: " ++ (decimal 20 (length v) ++ codes ") ")))))

-- "rows %d:\n"
unfoldable pub row_head : ℕ → Str
unfolding decimal
row_head n = codes "rows " ++ (decimal 10 n ++ codes ":\n")

unfoldable pub print_values : List Str → List Value → Buf → Buf
unfolding print value_text
print_values (name ∷ names) (v ∷ values) b = print_values names values (print (value_text name v) b)
print_values _ _ b = b

-- The loop over the rows, after `n` of them.
unfoldable pub print_sheet_rows : List Str → ℕ → List (List Value) → Buf → Buf
unfolding print print_values row_head
print_sheet_rows names n [] b = b
print_sheet_rows names n (r ∷ rows) b =
    print_sheet_rows names (suc n) rows
      (print (codes "\n") (print_values names r (print (row_head (suc n)) b)))

-- A statement's element of rs_buf; none when nothing is written to it.
unfoldable pub sheet_buffer : Bool → Sheet → Option Buf
unfolding print_sheet_rows
sheet_buffer true s = none
sheet_buffer false s = elim s.rows [
  | [] ↦ none
  | r ∷ rows ↦ some (print_sheet_rows s.names 0 (r ∷ rows) empty_buf)
]

-- What becomes of the loop over the statements: it goes on, check_error decides what is returned,
-- or the function ends.
pub data Stop : Type 0 where
  goes_on : Stop
  fails : Stop
  ends : Ending → Stop

-- A statement's calls, and the result set after them: of the first statement, with the counter that
-- calloc leaves, SB_CNT_OTHER.
unfoldable pub take_run : Bool → Bool → Run → Rs → Rs × Stop
take_run dml first r rs =
    if not dml && not r.metadata
    then (rs, ends returns_minus_one)
    else if not dml && not r.binds
    then (rs, ends exits)
    else if not r.executes || not r.stores
    then (rs, fails)
    else (
      if first
          then record rs { counter = other; nrows = u32 r.nrows; nfields = u32 r.nfields }
          else rs,
      goes_on,
    )

-- The result set, the elements of rs_buf, whether a result has more fields than the arrays of 10
-- have room for, and what has stopped the loop.
pub record Progress : Type 0 where
  pub rs : Rs
  pub buffers : List (Option Buf)
  pub smashed : Bool
  pub stop : Stop

unfoldable pub add_run : Bool → Run → Rs → Stop → Progress → Progress
unfolding sheet_buffer
add_run dml r rs goes_on p = record p {
  buffers = sheet_buffer dml r.sheet ∷ p.buffers;
  smashed = (not dml && ltb 10 (length r.sheet.names)) || p.smashed;
}
add_run dml r rs stop p = record { rs = rs; buffers = []; smashed = false; stop = stop }

-- The loop over the statements.
unfoldable pub execute_each : Bool → Bool → List Run → Rs → Progress
unfolding take_run add_run
execute_each dml first [] rs = record { rs = rs; buffers = []; smashed = false; stop = goes_on }
execute_each dml first (r ∷ runs) rs =
    let (rs', stop) = take_run dml first r rs in
    add_run dml r rs' stop (execute_each dml false runs rs')

-- How mysql_drv_execute ends, the result set, the statements it reports, which are none when it
-- reads an element of rs_buf that nothing was written to, and whether the arrays of 10 overflow.
pub record Executed : Type 0 where
  pub ending : Ending
  pub rs : Rs
  pub reported : Option (List ℕ)
  pub smashed : Bool

abbrev pub handle : Run → Option Handle
handle r = some (record { errno = r.errno; attempts = r.attempts })

unfoldable pub settle : Option (List ℕ) → Option Verdict → Progress → Stop → Option Executed
settle reported judged p goes_on =
    some
      (record { ending = returns error_none; rs = p.rs; reported = reported; smashed = p.smashed })
settle reported judged p (ends e) =
    some (record { ending = e; rs = p.rs; reported = some []; smashed = p.smashed })
settle reported judged p fails = judged >>= (λ v.
    some (record { ending = returns v.status; rs = p.rs; reported = some []; smashed = p.smashed }))

-- mysql_drv_execute of a statement whose handles are all there, with memory; none when reconnecting
-- does not end.
unfoldable pub drv_execute :
    Bool → Bool → (ℕ → Bool) → List Str → Str → List Run → Rs → Option Executed
unfolding execute_each is_dml is_select compare_buffers check_error settle
drv_execute dry_run emulated lost ignored query runs rs =
    let dml = is_dml query in
    let p = execute_each dml true runs rs in
    let reported = if not dml && is_select query then compare_buffers p.buffers else some [] in
    let judged = check_error lost ignored (some (map handle runs)) in
    if dry_run
    then some (record { ending = returns error_none; rs = rs; reported = some []; smashed = false })
    else if emulated
    then some
        (record { ending = returns error_fatal; rs = rs; reported = some []; smashed = false })
    else settle reported judged p p.stop

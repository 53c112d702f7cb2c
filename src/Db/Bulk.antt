-- ===== src/Db/Bulk.antt =====
-- src/db_driver.c: inserts of many rows in one statement, db_bulk_insert_init, db_bulk_insert_next,
-- db_bulk_insert_done and db_bulk_do_insert. The buffer is the string before its NUL, and a write
-- past its end is recorded. The length that a caller gives is that of its string.
pub mod Buffer
pub mod Sending
pub mod Rows
use sysbench.Prelude.{
  ℕ, zero, suc, ◌+◌, ◌*◌, Bool, true, false, not, ◌&&◌, ◌||◌, Option, none, some, List, [], ◌∷◌,
  ◌++◌, u32, ltb, leb, ◌==◌, if◌then◌else◌, length, take,
}
use sysbench.Prelude.Text.{Str, codes}
use sysbench.Db.{Session, Reply, is_none, guard, query}

-- BULK_PACKET_SIZE and ROWS_BEFORE_COMMIT
abbrev pub bulk_packet_size : ℕ
bulk_packet_size = 524288

abbrev pub rows_before_commit : ℕ
rows_before_commit = 1000

-- The fields of db_conn_t for bulk inserts; `overrun` says that a write has left the buffer.
pub record Bulk : Type 0 where
  pub session : Session
  pub buffer : Option Str
  pub buflen : ℕ
  pub cnt : ℕ
  pub ptr : ℕ
  pub values : ℕ
  pub commit_cnt : ℕ
  pub commit_max : ℕ
  pub overrun : Bool

-- The driver's answers to an insert and to a commit.
pub record Answers : Type 0 where
  pub insert_freed : Bool
  pub insert : Reply
  pub commit_freed : Bool
  pub commit : Reply

-- db_query(...) == NULL && con->error != DB_ERROR_NONE, with the session it leaves
unfoldable pub run : Bool → Reply → Str → Session → Session × Bool
unfolding query
run freed r text s =
    let (t, returned) = query freed r text s in (t, not returned && not (is_none t.error))

abbrev pub text_of : Option Str → Str
text_of none = []
text_of (some text) = text

-- The commit in db_bulk_do_insert: whether it fails, and the rows not committed.
unfoldable pub commit_rows : Bool → Answers → ℕ → Bulk → Bulk × Bool
unfolding run
commit_rows is_last a cnt b =
    let total = u32 (b.commit_cnt + cnt) in
    let (s, failed) = run a.commit_freed a.commit (codes "COMMIT") b.session in
    if b.commit_max == 0
    then (b, false)
    else if is_last || leb b.commit_max total
    then (if failed
        then (record b { session = s; commit_cnt = total }, true)
        else (record b { session = s; commit_cnt = 0 }, false))
    else (record b { commit_cnt = total }, false)

-- db_bulk_do_insert
unfoldable pub do_insert : Bool → Answers → Bulk → Bulk × ℕ
unfolding run commit_rows
do_insert is_last a b =
    let (s, failed) = run a.insert_freed a.insert (take b.ptr (text_of b.buffer)) b.session in
    let (c, uncommitted) = commit_rows is_last a b.cnt (record b { session = s }) in
    if b.cnt == 0
    then (b, 0)
    else if failed
    then (record b { session = s }, 1)
    else if uncommitted
    then (c, 1)
    else (record c { ptr = c.values; cnt = 0 }, 0)

-- The end of db_bulk_insert_next: the row is written after a comma, unless it is the first.
unfoldable pub append_row : Str → Str → Bulk → Bulk × ℕ
append_row text row b =
    let comma = if ltb 0 b.cnt then b',' ∷ [] else [] in
    (
      record b {
        buffer = some (take b.ptr text ++ (comma ++ row));
        overrun = b.overrun || ltb b.buflen (b.ptr + length comma + length row + 1);
        ptr = u32 (b.ptr + length row + length comma);
        cnt = u32 (b.cnt + 1);
      },
      0,
    )

-- db_bulk_insert_next after its guards
unfoldable pub add_row : Answers → Option Str → Str → Bulk → Bulk × ℕ
unfolding do_insert append_row
add_row a none row b = (b, 1)
add_row a (some text) row b =
    let (c, status) = do_insert false a b in
    if ltb b.buflen (b.ptr + length row + 1 + (if ltb 0 b.cnt then 1 else 0))
    then (if b.cnt == 0 then (b, 1) else if status == 0 then append_row text row c else (c, 1))
    else append_row text row b

-- db_bulk_insert_next
unfoldable pub bulk_insert_next : Bool → Answers → Str → Bulk → Bulk × ℕ
unfolding guard add_row
bulk_insert_next freed a row b =
    let (s, go_on) = guard freed b.session in
    if go_on
    then add_row a b.buffer row (record b { session = s })
    else (record b { session = s }, 0)

-- db_bulk_insert_init; `described` and `needs_commit` are what the driver says of itself, and
-- malloc succeeds.
unfoldable pub bulk_insert_init : Bool → Bool → Bool → Str → Bulk → Bulk × ℕ
unfolding guard
bulk_insert_init freed described needs_commit text b =
    let (s, go_on) = guard freed b.session in
    let t = record b { session = s } in
    if not go_on
    then (t, 0)
    else if not described
    then (t, 1)
    else if ltb bulk_packet_size (length text + 1)
    then (t, 1)
    else (
      record t {
        buflen = bulk_packet_size;
        buffer = some text;
        commit_max = if needs_commit then rows_before_commit else 0;
        commit_cnt = 0;
        ptr = length text;
        values = length text;
        cnt = 0;
      },
      0,
    )

-- db_bulk_insert_done
unfoldable pub bulk_insert_done : Answers → Bulk → Bulk × ℕ
unfolding do_insert
bulk_insert_done a b =
    let (c, status) = do_insert true a b in
    if status == 0 then (record c { buffer = none }, 0) else (c, 1)

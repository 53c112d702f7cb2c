-- ===== src/Compare/Execute/Reports.antt =====
-- Which servers mysql_drv_execute (src/drivers/compare/drv_compare.c) reports for a prepared
-- SELECT.
use sysbench.Prelude.{
  ℕ, suc, ◌+◌, ◌≤◌, ◌≡◌, ◌≢◌, ◌⊎◌, ◌∙◌, refl, sym, ap, subst, Bool, true, false, not, Option, none,
  some, List, [], ◌∷◌, arith, map, if◌then◌else◌, inl, inr, Bool-cases, Option-cases, length, ltb,
  u32, ◌&&◌,
}
use sysbench.Prelude.Text.{Str, str_eq, str_eq_iff}
use sysbench.Counters.{other}
use sysbench.Db.{error_none}
use sysbench.Compare.Table.{Buf, empty_buf}
use sysbench.Compare.Table.Exact.{Holds}
use sysbench.Compare.Query.{Rs, differing, compare_buffers}
use sysbench.Compare.Errors.{Verdict}
use sysbench.Compare.Execute.{
  Value, Run, returns, is_dml, is_select, sheet_buffer, goes_on, take_run, add_run, Progress,
  execute_each, settle, drv_execute,
}
use sysbench.Compare.Execute.Text.{rows_from, sheet_text, print_sheet_rows-Holds}

-- Every call of the client library succeeds for the statement, and its result has at most 10
-- fields.
pub record Succeeds (r : Run) : Type 0 where
  pub metadata : r.metadata ≡ true
  pub binds : r.binds ≡ true
  pub executes : r.executes ≡ true
  pub stores : r.stores ≡ true
  pub few : length r.sheet.names ≤ 10

abbrev pub AllSucceed : List Run → Type 0
AllSucceed [] = Unit {0}
AllSucceed (r ∷ runs) = Succeeds r × AllSucceed runs

-- There is a row, and the text has room in an element of rs_buf.
abbrev pub IsSmall : Run → Type 0
IsSmall r = (r.sheet.rows ≢ []) × (length (sheet_text r.sheet) + 1 ≤ 4096)

abbrev pub AllSmall : List Run → Type 0
AllSmall [] = Unit {0}
AllSmall (r ∷ runs) = IsSmall r × AllSmall runs

abbrev pub AnyEmpty : List Run → Type 0
AnyEmpty [] = ⊥
AnyEmpty (r ∷ runs) = (r.sheet.rows ≡ []) ⊎ AnyEmpty runs

-- The numbers of the statements, from one on, whose result's text is another one.
abbrev pub Tells : Str → ℕ → List Run → List ℕ → Type 0
Tells text j [] reported = reported ≡ []
Tells text j (r ∷ runs) reported =
    ((sheet_text r.sheet ≡ text) × Tells text (suc j) runs reported)
    ⊎ ((sheet_text r.sheet ≢ text)
        × ((rest : List ℕ) × (reported ≡ j ∷ rest) × Tells text (suc j) runs rest))

buffer_of : Run → Option Buf
unfolding sheet_buffer
buffer_of r = sheet_buffer false r.sheet

sheet_buffer-text :
    (names : List Str) (rows : List (List Value))
    → rows ≢ []
    → length (rows_from names 0 rows) + 1 ≤ 4096
    → (b : Buf) × (sheet_buffer false (record { names = names; rows = rows }) ≡ some b)
      × (b.text ≡ rows_from names 0 rows)
unfolding sheet_buffer
sheet_buffer-text names [] some_row small = absurd (some_row refl)
sheet_buffer-text names (r ∷ rows) some_row small =
    let start : Holds (length (rows_from names 0 (r ∷ rows)) + 1) [] empty_buf = record {
      text = refl;
      pos = refl;
      fits = omega arith;
      large = omega arith;
      whole = refl;
      inside = refl;
    } in
    (
      _,
      refl,
      (print_sheet_rows-Holds names 0 (r ∷ rows) 1 [] empty_buf (omega arith) start
          (omega arith)).text,
    )

buffer_of-text :
    (r : Run) → IsSmall r → (b : Buf) × (buffer_of r ≡ some b) × (b.text ≡ sheet_text r.sheet)
unfolding buffer_of
buffer_of-text r h = sheet_buffer-text r.sheet.names r.sheet.rows h.0 h.1

buffer_of-empty : (r : Run) → r.sheet.rows ≡ [] → buffer_of r ≡ none
unfolding buffer_of sheet_buffer
buffer_of-empty r e = rw e refl

take_run-Succeeds :
    (first : Bool) (r : Run) (rs : Rs)
    → Succeeds r
    → take_run false first r rs ≡ (
      if first
          then record rs { counter = other; nrows = u32 r.nrows; nfields = u32 r.nfields }
          else rs,
      goes_on,
    )
unfolding take_run
take_run-Succeeds first r rs h = rw (h.metadata, h.binds, h.executes, h.stores) refl

made : Rs → List Run → Progress
unfolding buffer_of
made rs runs = record { rs = rs; buffers = map buffer_of runs; smashed = false; stop = goes_on }

execute_each-others :
    (runs : List Run) (rs : Rs) → AllSucceed runs → execute_each false false runs rs ≡ made rs runs
unfolding execute_each add_run buffer_of made
execute_each-others [] rs h = refl
execute_each-others (r ∷ runs) rs h =
    let few : ltb 10 (length r.sheet.names) ≡ false = ground (arith, h.0.few) in
    rw (take_run-Succeeds false r rs h.0, execute_each-others runs rs h.1, few) refl

execute_each-made :
    (r : Run) (runs : List Run) (rs : Rs)
    → AllSucceed (r ∷ runs)
    → execute_each false true (r ∷ runs) rs
      ≡ made
          (record rs { counter = other; nrows = u32 r.nrows; nfields = u32 r.nfields })
          (r ∷ runs)
unfolding execute_each add_run buffer_of made
execute_each-made r runs rs h =
    let few : ltb 10 (length r.sheet.names) ≡ false = ground (arith, h.0.few) in
    rw (take_run-Succeeds true r rs h.0, execute_each-others runs _ h.1, few) refl

differing-Tells :
    (text : Str) (runs : List Run) (j : ℕ)
    → AllSmall runs
    → (reported : List ℕ) × (differing text j (map buffer_of runs) ≡ some reported)
      × Tells text j runs reported
unfolding differing
differing-Tells text [] j h = ([], refl, refl)
differing-Tells text (r ∷ runs) j h =
    let (b, made, e) = buffer_of-text r h.0 in
    let (rest, others, t) = differing-Tells text runs (suc j) h.1 in
    let same = str_eq_iff text b.text in
    elim (Bool-cases (str_eq text b.text)) [
      | inl hit ↦ (rest, rw (made, others, hit) refl, inl (sym e ∙ sym (same.0 hit), t))
      | inr miss ↦ (
        j ∷ rest,
        rw (made, others, miss) refl,
        inr (λ q. absurd (cc (same.1 (sym (e ∙ q)))), (rest, refl, t)),
      )
    ]

differing-unset :
    (text : Str) (runs : List Run) (j : ℕ)
    → AnyEmpty runs
    → differing text j (map buffer_of runs) ≡ none
unfolding differing
differing-unset text [] j h = absurd h
differing-unset text (r ∷ runs) j (inl e) = rw (buffer_of-empty r e) refl
differing-unset text (r ∷ runs) j (inr later) = elim (Option-cases (buffer_of r)) [
  | inl empty ↦ rw empty refl
  | inr (b, made) ↦ rw (made, differing-unset text runs (suc j) later) refl
]

compare_buffers-unset :
    (runs : List Run) → AnyEmpty runs → compare_buffers (map buffer_of runs) ≡ none
unfolding compare_buffers
compare_buffers-unset [] h = absurd h
compare_buffers-unset (r ∷ runs) (inl e) = rw (buffer_of-empty r e) refl
compare_buffers-unset (r ∷ runs) (inr later) = elim (Option-cases (buffer_of r)) [
  | inl empty ↦ rw empty refl
  | inr (b, made) ↦ rw made (differing-unset b.text runs 1 later)
]

settle-made :
    (dml select : Bool) (p : Progress) (judged : Option Verdict) (rs : Rs) (runs : List Run)
    → dml ≡ false
    → select ≡ true
    → p ≡ made rs runs
    → settle (if not dml && select then compare_buffers p.buffers else some []) judged p p.stop
      ≡ some (record {
        ending = returns error_none;
        rs = rs;
        reported = compare_buffers (map buffer_of runs);
        smashed = false;
      })
unfolding settle made
settle-made dml select p judged rs runs d s e = rw (d, s, e) refl

module _ (lost : ℕ → Bool) (ignored : List Str) (query : Str) (r : Run) (runs : List Run) (rs : Rs)
    (read_only : is_dml query ≡ false) (select : is_select query ≡ true)
    (succeed : AllSucceed (r ∷ runs)) where
  drv_execute-made :
      drv_execute false false lost ignored query (r ∷ runs) rs
      ≡ some (record {
        ending = returns error_none;
        rs = record rs { counter = other; nrows = u32 r.nrows; nfields = u32 r.nfields };
        reported = compare_buffers (map buffer_of (r ∷ runs));
        smashed = false;
      })
  unfolding drv_execute
  drv_execute-made =
      settle-made (is_dml query) (is_select query) (execute_each (is_dml query) true (r ∷ runs) rs)
        _ (record rs { counter = other; nrows = u32 r.nrows; nfields = u32 r.nfields }) (r ∷ runs)
        read_only select
        (ap (λ dml. execute_each dml true (r ∷ runs) rs) read_only
          ∙ execute_each-made r runs rs succeed)

  -- When every call of the client library succeeds for a prepared SELECT, whose results have at
  -- most 10 fields, and every result has a row and a text of less than 4096 bytes,
  -- mysql_drv_execute returns DB_ERROR_NONE and reports exactly the servers whose result's text is
  -- not that of the first one's; but it counts the statement as SB_CNT_OTHER, not as a read.
  pub drv_execute-Tells :
      AllSmall (r ∷ runs)
      → (reported : List ℕ) × (drv_execute false false lost ignored query (r ∷ runs) rs
          ≡ some (record {
            ending = returns error_none;
            rs = record rs { counter = other; nrows = u32 r.nrows; nfields = u32 r.nfields };
            reported = some reported;
            smashed = false;
          }))
        × Tells (sheet_text r.sheet) 1 runs reported
  unfolding compare_buffers
  drv_execute-Tells small =
      let (b, made, e) = buffer_of-text r small.0 in
      let (reported, others, t) = differing-Tells b.text runs 1 small.1 in
      (
        reported,
        drv_execute-made ∙ rw (made, others) refl,
        subst (λ text. Tells text 1 runs reported) e t,
      )

  -- When every call of the client library succeeds for a prepared SELECT, whose results have at
  -- most 10 fields, and some server's result has no rows, mysql_drv_execute reads an element of
  -- rs_buf to which nothing was written.
  pub drv_execute-unset :
      AnyEmpty (r ∷ runs)
      → drv_execute false false lost ignored query (r ∷ runs) rs
        ≡ some (record {
          ending = returns error_none;
          rs = record rs { counter = other; nrows = u32 r.nrows; nfields = u32 r.nfields };
          reported = none;
          smashed = false;
        })
  drv_execute-unset empty = drv_execute-made ∙ rw (compare_buffers-unset (r ∷ runs) empty) refl

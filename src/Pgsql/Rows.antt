-- ===== src/Pgsql/Rows.antt =====
-- What reading a result of pgsql_drv_query (src/drivers/pgsql/drv_pgsql.c) row by row gives.
use sysbench.Prelude.{
  ℕ, zero, suc, ◌+◌, ◌^◌, ◌%◌, ◌<◌, ◌≡◌, refl, ap, true, false, none, some, List, [], ◌∷◌, arith,
  leb, length, drop,
}
use sysbench.Prelude.Text.{Str}
use sysbench.Counters.{read}
use sysbench.Db.{error_none}
use sysbench.Pgsql.Query.{
  Row, tuples_ok, PgConn, ResultSet, Answered, pq_exec, pq_clear, check_status, drv_query, as_int,
  nth_row, read_fields, drv_fetch_row, drv_free_results,
}

-- Every row has the number of fields.
abbrev pub EachHas : ℕ → List Row → Type 0
EachHas nfields [] = Unit {0}
EachHas nfields (r ∷ rows) = (length r ≡ nfields) × EachHas nfields rows

-- A caller that reads rows until there is none, with its fuel.
unfoldable pub fetch_each : ℕ → ResultSet → List Row × ResultSet
fetch_each zero rs = ([], rs)
fetch_each (suc fuel) rs = elim (drv_fetch_row rs) [
  | none ↦ ([], rs)
  | some r ↦ let (rows, last) = fetch_each fuel r.1 in (r.0 ∷ rows, last)
]

nth_row-drop :
    (rows : List Row) (r : ℕ) (x : Row) (rest : List Row)
    → drop r rows ≡ x ∷ rest
    → (nth_row rows r ≡ x) × (drop (suc r) rows ≡ rest)
unfolding nth_row
nth_row-drop [] zero x rest e = absurd (grind arith)
nth_row-drop [] (suc r) x rest e = absurd (grind arith)
nth_row-drop (y ∷ rows) zero x rest e = (cc, cc)
nth_row-drop (y ∷ rows) (suc r) x rest e = nth_row-drop rows r x rest e

read_fields-all : (n : ℕ) (row : Row) → length row ≡ n → read_fields n row ≡ row
unfolding read_fields
read_fields-all zero [] e = refl
read_fields-all zero (v ∷ row) e = absurd (omega arith)
read_fields-all (suc n) [] e = absurd (omega arith)
read_fields-all (suc n) (v ∷ row) e = ap (λ r. v ∷ r) (read_fields-all n row (omega arith))

-- A result set at a row.
abbrev at_row : ℕ → List Row → ℕ → ResultSet
at_row nfields rows r = record {
  counter = read;
  nrows = length rows;
  nfields = nfields;
  ptr = some (tuples_ok nfields rows);
  row = r;
}

as_int-small : (n : ℕ) → n < 2 ^ 31 → as_int n ≡ n
as_int-small n l = ground arith

fetch_row-none :
    (nfields : ℕ) (rows : List Row)
    → length rows < 2 ^ 31
    → drv_fetch_row (at_row nfields rows (length rows)) ≡ none
unfolding drv_fetch_row
fetch_row-none nfields rows l = rw (as_int-small (length rows) l, leb-refl (length rows)) refl
  where
    leb-refl : (n : ℕ) → leb n n ≡ true
    leb-refl n = ground arith

fetch_row-some :
    (nfields : ℕ) (rows : List Row) (r : ℕ) (x : Row)
    → nfields < 2 ^ 31
    → length rows < 2 ^ 31
    → r < length rows
    → nth_row rows r ≡ x
    → length x ≡ nfields
    → drv_fetch_row (at_row nfields rows r) ≡ some (x, at_row nfields rows (suc r))
unfolding drv_fetch_row
fetch_row-some nfields rows r x f l below e w =
    let more : leb (length rows) r ≡ false = ground arith in
    rw (as_int-small (length rows) l, more, as_int-small nfields f, e, read_fields-all nfields x w)
      refl

fetch_each-rest :
    (fuel nfields : ℕ) (rows : List Row) (r : ℕ) (rest : List Row)
    → nfields < 2 ^ 31
    → length rows < 2 ^ 31
    → length rest < fuel
    → drop r rows ≡ rest
    → r + length rest ≡ length rows
    → EachHas nfields rest
    → fetch_each fuel (at_row nfields rows r) ≡ (rest, at_row nfields rows (length rows))
unfolding fetch_each
fetch_each-rest zero nfields rows r rest f l h e c w = absurd (omega arith)
fetch_each-rest (suc fuel) nfields rows r [] f l h e c w =
    let here : r ≡ length rows = omega arith in
    rw (here, fetch_each, fetch_row-none nfields rows l, here) refl
fetch_each-rest (suc fuel) nfields rows r (x ∷ rest) f l h e c w =
    let n = nth_row-drop rows r x rest e in
    let next =
      fetch_each-rest fuel nfields rows (suc r) rest f l (omega arith) n.1 (omega arith) w.1 in
    rw (fetch_each, fetch_row-some nfields rows r x f l (omega arith) n.0 w.0, next) refl

-- A result with rows is returned without an error; when its number of rows and of fields is below
-- 2^31, every row has that many fields and the result set is at its first row, then reading until
-- there is none gives exactly the rows in their order, and releasing the result set then leaves as
-- many results of the client library as before the query.
pub drv_query-rows :
    (c : PgConn) (query : Str) (nfields : ℕ) (rows : List Row) (rs : ResultSet) (fuel : ℕ)
    → nfields < 2 ^ 31
    → length rows < 2 ^ 31
    → EachHas nfields rows
    → rs.row ≡ 0
    → length rows < fuel
    → (k : Answered) × (drv_query c query (tuples_ok nfields rows) rs ≡ some k)
      × ((k.status ≡ error_none)
          × (((fetch_each fuel k.rs).0 ≡ rows)
              × ((drv_fetch_row (fetch_each fuel k.rs).1 ≡ none)
                  × ((drv_free_results k.conn (fetch_each fuel k.rs).1).1.0.live ≡ c.live))))
unfolding drv_query check_status pq_exec drv_free_results pq_clear
drv_query-rows c query nfields rows rs fuel f l w start enough =
    let all = fetch_each-rest fuel nfields rows 0 rows f l enough refl (omega arith) w in
    let words : (length rows % 4294967296) ≡ length rows = omega arith in
    let few : (nfields % 4294967296) ≡ nfields = omega arith in
    let sent = pq_exec query (record c { sql_state = none; sql_errmsg = none }) in
    (
      record { status = error_none; conn = sent; rs = at_row nfields rows 0 },
      rw (words, few, start) refl,
      (refl, (rw all refl, (rw all (fetch_row-none nfields rows l), rw all (omega arith)))),
    )

-- ===== src/Compare/Query/Laws.antt =====
-- What mysql_drv_query (src/drivers/compare/drv_compare.c) reports of the results of a SELECT, and
-- what it makes of an error.
use sysbench.Prelude.{
  ℕ, suc, ◌<◌, ◌≡◌, ◌≢◌, ◌↔◌, ◌⊎◌, ◌∙◌, refl, sym, Bool, true, false, Option, none, some, List, [],
  ◌∷◌, map, inl, inr, Bool-cases, length, u32,
}
use sysbench.Prelude.Text.{Str, str_eq, str_eq_iff}
use sysbench.Counters.{read}
use sysbench.Db.{error_none}
use sysbench.Compare.Table.{Field, Cell, Table, Buf, int_limit, format}
use sysbench.Compare.Table.Rendering.{rendering}
use sysbench.Compare.Table.Exact.{AllNarrow, EvenRow, EvenRows, format-exact}
use sysbench.Compare.Table.Agree.{AgreeRows, present, BoundedRow, BoundedRows, rendering_iff}
use sysbench.Compare.Errors.{Verdict}
use sysbench.Compare.Errors.Laws.{Says, AllEnd, check_error-first}
use sysbench.Compare.Query.{
  query_fails, store_fails, result, Answer, Rs, take_reply, each_connection, differing,
  compare_buffers, handle, failed, drv_query,
}

abbrev pub Rows : Type 0
Rows = List (Option (List Cell))

EvenRow-BoundedRow :
    (fields : List Field) (cells : List Cell) → EvenRow fields cells → BoundedRow fields cells
EvenRow-BoundedRow [] [] e = tt
EvenRow-BoundedRow [] (c ∷ cells) e = e
EvenRow-BoundedRow (f ∷ fields) [] e = e
EvenRow-BoundedRow (f ∷ fields) (c ∷ cells) e = (e.0.0, EvenRow-BoundedRow fields cells e.1)

EvenRows-BoundedRows :
    (fields : List Field) (rows : Rows) → EvenRows fields rows → BoundedRows fields (present rows)
EvenRows-BoundedRows fields [] e = tt
EvenRows-BoundedRows fields (none ∷ rows) e = EvenRows-BoundedRows fields rows e
EvenRows-BoundedRows fields (some r ∷ rows) e =
    (EvenRow-BoundedRow fields r e.0, EvenRows-BoundedRows fields rows e.1)

abbrev pub a_table : List Field → Rows → Table
a_table fields rows = record { fields = fields; rows = rows }

-- The position in the text stays an int.
abbrev pub IsShort : List Field → Rows → Type 0
IsShort fields rows = length (rendering (a_table fields rows)) < int_limit

-- Every connection gives a result with these fields, the length of each column's longest value
-- included, whose buffer grows as it needs and whose text has fewer than 2^31 bytes.
abbrev pub Answered : List Field → List Answer → List Rows → Type 0
Answered fields [] [] = Unit {0}
Answered fields (a ∷ answers) (rows ∷ others) =
    (a.reply ≡ result (a_table fields rows))
    × (EvenRows fields rows × IsShort fields rows)
    × Answered fields answers others
Answered fields _ _ = ⊥

-- The numbers of the connections, from one on, whose rows do not agree with these.
abbrev pub Reports : Rows → ℕ → List Rows → List ℕ → Type 0
Reports rows j [] reported = reported ≡ []
Reports rows j (q ∷ others) reported =
    (AgreeRows (present rows) (present q) × Reports rows (suc j) others reported)
    ⊎ ((¬ AgreeRows (present rows) (present q))
        × ((rest : List ℕ) × (reported ≡ j ∷ rest) × Reports rows (suc j) others rest))

module _ (fields : List Field) (some_field : fields ≢ []) (narrow : AllNarrow fields) where
  buffer_of : Rows → Option Buf
  buffer_of rows = some (format (a_table fields rows))

  others-buffers :
      (answers : List Answer) (others : List Rows) (rs : Rs)
      → Answered fields answers others
      → each_connection true false answers rs
        ≡ (record { rs = rs; buffers = map buffer_of others }, true)
  unfolding each_connection take_reply buffer_of
  others-buffers [] [] rs h = refl
  others-buffers [] (q ∷ others) rs h = absurd h
  others-buffers (a ∷ answers) [] rs h = absurd h
  others-buffers (a ∷ answers) (q ∷ others) rs h =
      rw (h.0, others-buffers answers others rs h.2) refl

  text_of :
      (rows : Rows)
      → EvenRows fields rows
      → IsShort fields rows
      → (format (a_table fields rows)).text ≡ rendering (a_table fields rows)
  text_of rows e short = (format-exact (a_table fields rows) (some_field, narrow, e) short).0

  module _ (rows : Rows) (even : EvenRows fields rows) (short : IsShort fields rows) where
    agree_iff :
        (q : Rows)
        → EvenRows fields q
        → IsShort fields q
        → (str_eq (format (a_table fields rows)).text (format (a_table fields q)).text ≡ true)
          ↔ AgreeRows (present rows) (present q)
    agree_iff q e k =
        let i =
          rendering_iff fields rows q (EvenRows-BoundedRows fields rows even)
            (EvenRows-BoundedRows fields q e) in
        let same =
          str_eq_iff (format (a_table fields rows)).text (format (a_table fields q)).text in
        (
          λ s. i.0 (sym (text_of rows even short) ∙ same.0 s ∙ text_of q e k),
          λ a. same.1 (text_of rows even short ∙ i.1 a ∙ sym (text_of q e k)),
        )

    differing-Reports :
        (answers : List Answer) (others : List Rows) (j : ℕ)
        → Answered fields answers others
        → (reported : List ℕ) × (differing
              (format (a_table fields rows)).text
              j
              (map buffer_of others)
            ≡ some reported)
          × Reports rows j others reported
    unfolding differing buffer_of
    differing-Reports [] [] j h = ([], refl, refl)
    differing-Reports [] (q ∷ others) j h = absurd h
    differing-Reports (a ∷ answers) [] j h = absurd h
    differing-Reports (a ∷ answers) (q ∷ others) j h =
        let (rest, e, r) = differing-Reports answers others (suc j) h.2 in
        let text = (format (a_table fields rows)).text in
        let i = agree_iff q h.1.0 h.1.1 in
        elim (Bool-cases (str_eq text (format (a_table fields q)).text)) [
          | inl same ↦ (rest, rw (e, same) refl, inl (i.0 same, r))
          | inr other ↦
              (j ∷ rest, rw (e, other) refl, inr (λ a. absurd (cc (i.1 a)), (rest, refl, r)))
        ]

    -- When every connection gives a result with the same fields and the same length of the longest
    -- value in each column, there is a column, no column's values are longer than 4086 bytes, no
    -- name is more than 5 bytes longer than its column's values, in each row every value is at most
    -- 2 bytes shorter than the longest of its column, and every result's text has fewer than 2^31
    -- bytes, then mysql_drv_query returns DB_ERROR_NONE for a SELECT, with the counter, the number
    -- of rows and the number of fields of the first connection's result, and it reports exactly
    -- the connections that do not have as many rows as the first, with values that are shown the
    -- same up to blanks at their ends.
    pub drv_query-Reports :
        (lost : ℕ → Bool) (ignored : List Str) (a : Answer) (answers : List Answer)
        (others : List Rows) (rs : Rs)
        → a.reply ≡ result (a_table fields rows)
        → Answered fields answers others
        → (reported : List ℕ) × (drv_query false lost ignored true (a ∷ answers) rs
            ≡ some (record {
              status = error_none;
              rs = record {
                counter = read;
                nrows = u32 (length rows);
                nfields = length fields;
                ptr = none;
              };
              reported = some reported;
            }))
          × Reports rows 1 others reported
    unfolding drv_query each_connection take_reply compare_buffers
    drv_query-Reports lost ignored a answers others rs first h =
        let set : Rs = record {
          counter = read;
          nrows = u32 (length rows);
          nfields = length fields;
          ptr = none;
        } in
        let (reported, e, r) = differing-Reports answers others 1 h in
        (reported, rw (first, others-buffers answers others set h, e) refl, r)

-- Some connection's query or its storing of a result fails.
abbrev pub AnyFails : List Answer → Type 0
AnyFails [] = ⊥
AnyFails (a ∷ answers) = ((a.reply ≡ query_fails) ⊎ (a.reply ≡ store_fails)) ⊎ AnyFails answers

each_connection-stops :
    (select first : Bool) (answers : List Answer) (rs : Rs)
    → AnyFails answers
    → (each_connection select first answers rs).1 ≡ false
unfolding each_connection take_reply
each_connection-stops select first [] rs h = absurd h
each_connection-stops select first (a ∷ answers) rs (inl (inl e)) = rw e refl
each_connection-stops select first (a ∷ answers) rs (inl (inr e)) = rw e refl
each_connection-stops select first (a ∷ answers) rs (inr later) =
    elim (Bool-cases (take_reply select first a.reply rs).2) [
      | inl goes_on ↦
          rw goes_on (
            each_connection-stops select false answers (take_reply select first a.reply rs).0 later)
      | inr stops ↦ rw stops refl
    ]

-- When some connection fails, mysql_drv_query returns, provided that for every connection an
-- attempt to connect again succeeds or finds that sysbench is stopping; and what it returns is
-- decided by the error number of the first connection, also when another one has failed: it is
-- fatal when that number is not listed in --mysql-ignore-errors; when it is listed and says that
-- the server is lost, all connections are made again, or it is fatal; when it is listed otherwise,
-- it is ignorable.
pub drv_query-failure :
    (lost : ℕ → Bool) (ignored : List Str) (select : Bool) (a : Answer) (answers : List Answer)
    (rs : Rs)
    → AnyFails (a ∷ answers)
    → AllEnd (map handle (a ∷ answers))
    → (v : Verdict) × ((p : Rs) × (drv_query false lost ignored select (a ∷ answers) rs
          ≡ some (failed p v)))
      × Says lost ignored a.errno (map handle (a ∷ answers)) v
unfolding drv_query
drv_query-failure lost ignored select a answers rs fails ends =
    let (v, e, s) =
      check_error-first lost ignored 0 (record { errno = a.errno; attempts = a.attempts })
        (map handle answers) ends in
    let stops = each_connection-stops select true (a ∷ answers) rs fails in
    (v, ((each_connection select true (a ∷ answers) rs).0.rs, rw (stops, e) refl), s)

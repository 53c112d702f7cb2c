-- ===== src/Compare/Table/Exact.antt =====
-- When the buffer of a result (src/drivers/compare/drv_compare.c) grows as the text needs.
use mathlib.Core.List.{append-nil, append_assoc}
use sysbench.Prelude.{
  ℕ, ◌+◌, ◌-◌, ◌≤◌, ◌<◌, ◌≡◌, ◌≢◌, refl, sym, ap, subst, true, false, Option, none, some, List, [],
  ◌∷◌, ◌++◌, arith, length, length-append, ltb, leb, inl, inr, Bool-cases, ◌&&◌,
}
use sysbench.Prelude.Text.{Str}
use sysbench.Compare.Table.{
  Field, Cell, Table, Buf, int_limit, print, grow, cell_length, head_text, cell_text, line_end,
  print_names, print_cells, print_rows, terminate, empty_buf, format,
}
use sysbench.Compare.Table.Rendering.{
  names_text, cells_text, rows_text, rendering, IsBounded, length-head_text, length-cell_text,
}

-- A value fits its column: it is no longer than the longest of the column, and at most 2 shorter.
abbrev pub IsEven : Field → Cell → Type 0
IsEven f c = IsBounded f c × (f.max_length ≤ cell_length c + 2)

-- A column is not wider than the buffer, and its name at most 5 longer than its values.
abbrev pub IsNarrow : Field → Type 0
IsNarrow f = (f.max_length + 10 ≤ 4096) × (length f.name ≤ f.max_length + 5)

abbrev pub AllNarrow : List Field → Type 0
AllNarrow [] = Unit {0}
AllNarrow (f ∷ fields) = IsNarrow f × AllNarrow fields

-- As many values as fields.
abbrev pub EvenRow : List Field → List Cell → Type 0
EvenRow [] [] = Unit {0}
EvenRow (f ∷ fields) (c ∷ cells) = IsEven f c × EvenRow fields cells
EvenRow _ _ = ⊥

abbrev pub EvenRows : List Field → List (Option (List Cell)) → Type 0
EvenRows fields [] = Unit {0}
EvenRows fields (none ∷ rows) = EvenRows fields rows
EvenRows fields (some cells ∷ rows) = EvenRow fields cells × EvenRows fields rows

abbrev pub IsEvenTable : Table → Type 0
IsEvenTable t = (t.fields ≢ []) × AllNarrow t.fields × EvenRows t.fields t.rows

-- The buffer holds a text, and room for a number of bytes more.
pub record Holds (room : ℕ) (s : Str) (b : Buf) : Type 0 where
  pub text : b.text ≡ s
  pub pos : b.pos ≡ length s
  pub fits : length s + room ≤ b.size
  pub large : 4096 ≤ b.size
  pub whole : b.cut ≡ false
  pub inside : b.overrun ≡ false

-- What is printed first stays below the limit, and so does the rest behind it.
pub within : (s t u : Str) → length (s ++ (t ++ u)) < int_limit → length (s ++ t) < int_limit
within s t u h = omega (arith, length-append s t, length-append s (t ++ u), length-append t u)

pub within-rest :
    (s t u : Str) → length (s ++ (t ++ u)) < int_limit → length ((s ++ t) ++ u) < int_limit
within-rest s t u h = subst (λ x. length x < int_limit) (sym (append_assoc s t u)) h

pub print-Holds :
    (t : Str) (room left : ℕ) (s : Str) (b : Buf)
    → Holds room s b
    → length (s ++ t) < int_limit
    → length t + left ≤ room
    → 1 ≤ left
    → Holds left (s ++ t) (print t b)
unfolding print
print-Holds t room left s b h below enough some_left =
    let small : leb int_limit (b.pos + length t) ≡ false =
      ground (arith, h.pos, length-append s t, below) in
    let inside : ltb b.size b.pos ≡ false = ground (arith, h.pos, h.fits) in
    let fits : ltb (length t) (b.size - b.pos) ≡ true = ground (arith, h.pos, h.fits) in
    rw (small, inside, fits, h.whole)
      (record {
        text = ap (λ x. x ++ t) h.text;
        pos = omega (arith, h.pos, length-append s t);
        fits = omega (arith, h.fits, length-append s t);
        large = h.large;
        whole = refl;
        inside = h.inside;
      })

grow-Holds :
    (len : ℕ) (s : Str) (b : Buf) → Holds 1 s b → len + 10 ≤ 4096 → Holds (len + 10) s (grow len b)
unfolding grow
grow-Holds len s b h small =
    elim (Bool-cases (leb b.pos b.size && ltb (b.size - b.pos) (len + 10))) [
      | inl full ↦ rw full (record {
        text = h.text;
        pos = h.pos;
        fits = omega (arith, h.fits, h.large);
        large = omega (arith, h.large);
        whole = h.whole;
        inside = h.inside;
      })
      | inr room ↦ rw room (record {
        text = h.text;
        pos = h.pos;
        fits = ground (arith, h.fits, h.pos);
        large = h.large;
        whole = h.whole;
        inside = h.inside;
      })
    ]

-- A column's name or a value is printed after the buffer has grown for it.
chunk-Holds :
    (t s : Str) (len : ℕ) (b : Buf)
    → Holds 1 s b
    → len + 10 ≤ 4096
    → length t + 3 ≤ len + 10
    → length (s ++ t) < int_limit
    → Holds 3 (s ++ t) (print t (grow len b))
chunk-Holds t s len b h small enough below =
    print-Holds t (len + 10) 3 s (grow len b) (grow-Holds len s b h small) below enough
      (omega arith)

less : (s : Str) (b : Buf) → Holds 3 s b → Holds 1 s b
less s b h = record {
  text = h.text;
  pos = h.pos;
  fits = omega (arith, h.fits);
  large = h.large;
  whole = h.whole;
  inside = h.inside;
}

cell-Holds :
    (f : Field) (c : Cell) (s : Str) (b : Buf)
    → IsNarrow f
    → IsEven f c
    → Holds 1 s b
    → length (s ++ cell_text f c) < int_limit
    → Holds 3 (s ++ cell_text f c) (print (cell_text f c) (grow (cell_length c) b))
cell-Holds f c s b n e h below =
    chunk-Holds (cell_text f c) s (cell_length c) b h (omega (arith, n.0, e.0))
      (omega (arith, length-cell_text f c e.0, e.1)) below

print_names-Holds :
    (fields : List Field) (s : Str) (b : Buf)
    → AllNarrow fields
    → Holds 3 s b
    → length (s ++ names_text fields) < int_limit
    → Holds 3 (s ++ names_text fields) (print_names fields b)
unfolding print_names
print_names-Holds [] s b n h below = subst (λ x. Holds 3 x b) (sym (append-nil s)) h
print_names-Holds (f ∷ fields) s b n h below =
    subst (λ x. Holds 3 x (print_names (f ∷ fields) b))
      (append_assoc s (head_text f) (names_text fields))
      (print_names-Holds fields (s ++ head_text f) (print (head_text f) (grow f.max_length b)) n.1
        (chunk-Holds (head_text f) s f.max_length b (less s b h) n.0.0
          (omega (arith, length-head_text f, n.0.1))
          (within s (head_text f) (names_text fields) below))
        (within-rest s (head_text f) (names_text fields) below))

-- A line of values that is not empty.
print_cells-Holds :
    (f : Field) (fields : List Field) (cells : List Cell) (s : Str) (b : Buf)
    → AllNarrow (f ∷ fields)
    → EvenRow (f ∷ fields) cells
    → Holds 1 s b
    → length (s ++ cells_text (f ∷ fields) cells) < int_limit
    → Holds 3 (s ++ cells_text (f ∷ fields) cells) (print_cells (f ∷ fields) cells b)
unfolding print_cells
print_cells-Holds f fields [] s b n e h below = absurd e
print_cells-Holds f [] (c ∷ d ∷ cells) s b n e h below = absurd e.1
print_cells-Holds f [] (c ∷ []) s b n e h below =
    subst (λ x. Holds 3 x (print (cell_text f c) (grow (cell_length c) b)))
      (ap (λ x. s ++ x) (sym (append-nil (cell_text f c))))
      (cell-Holds f c s b n.0 e.0 h (within s (cell_text f c) [] below))
print_cells-Holds f (g ∷ fields) (c ∷ cells) s b n e h below =
    subst (λ x. Holds 3 x (print_cells (f ∷ g ∷ fields) (c ∷ cells) b))
      (append_assoc s (cell_text f c) (cells_text (g ∷ fields) cells))
      (print_cells-Holds g fields cells (s ++ cell_text f c)
        (print (cell_text f c) (grow (cell_length c) b)) n.1 e.1
        (less (s ++ cell_text f c) _ (
          cell-Holds f c s b n.0 e.0 h
            (within s (cell_text f c) (cells_text (g ∷ fields) cells) below)))
        (within-rest s (cell_text f c) (cells_text (g ∷ fields) cells) below))

print_rows-Holds :
    (f : Field) (fields : List Field) (rows : List (Option (List Cell))) (s : Str) (b : Buf)
    → AllNarrow (f ∷ fields)
    → EvenRows (f ∷ fields) rows
    → Holds 1 s b
    → length (s ++ rows_text (f ∷ fields) rows) < int_limit
    → Holds 1 (s ++ rows_text (f ∷ fields) rows) (print_rows (f ∷ fields) rows b)
unfolding print_rows
print_rows-Holds f fields [] s b n e h below = subst (λ x. Holds 1 x b) (sym (append-nil s)) h
print_rows-Holds f fields (none ∷ rows) s b n e h below =
    print_rows-Holds f fields rows s b n e h below
print_rows-Holds f fields (some cells ∷ rows) s b n e h below =
    let line = cells_text (f ∷ fields) cells in
    let rest = rows_text (f ∷ fields) rows in
    let here = within s (line ++ line_end) rest below in
    let b' = print_cells (f ∷ fields) cells b in
    let ended =
      print-Holds line_end 3 1 (s ++ line) b'
        (print_cells-Holds f fields cells s b n e.0 h (within s line line_end here))
        (within-rest s line line_end here) (omega arith) (omega arith) in
    subst (λ x. Holds 1 x (print_rows (f ∷ fields) (some cells ∷ rows) b))
      (append_assoc s (line ++ line_end) (rows_text (f ∷ fields) rows))
      (print_rows-Holds f fields rows (s ++ (line ++ line_end)) (print line_end b') n e.1
        (subst (λ x. Holds 1 x (print line_end b')) (append_assoc s line line_end) ended)
        (within-rest s (line ++ line_end) rest below))

terminate-Holds : (s : Str) (b : Buf) → Holds 1 s b → Holds 1 s (terminate b)
unfolding terminate
terminate-Holds s b h =
    let room : ltb b.pos b.size ≡ true = ground (arith, h.pos, h.fits) in rw room h

format-Holds :
    (fields : List Field) (rows : List (Option (List Cell)))
    → fields ≢ []
    → AllNarrow fields
    → EvenRows fields rows
    → length ((names_text fields ++ line_end) ++ rows_text fields rows) < int_limit
    → Holds 1
        ((names_text fields ++ line_end) ++ rows_text fields rows)
        (terminate (print_rows fields rows (print line_end (print_names fields empty_buf))))
format-Holds [] rows some_field n e below = absurd (some_field refl)
format-Holds (f ∷ fields) rows some_field n e below =
    let start : Holds 3 [] empty_buf = record {
      text = refl;
      pos = refl;
      fits = omega arith;
      large = omega arith;
      whole = refl;
      inside = refl;
    } in
    let head = names_text (f ∷ fields) in
    let first = within [] (head ++ line_end) (rows_text (f ∷ fields) rows) below in
    let names =
      print_names-Holds (f ∷ fields) [] empty_buf n start (within [] head line_end first) in
    let headed =
      print-Holds line_end 3 1 head (print_names (f ∷ fields) empty_buf) names first (omega arith)
        (omega arith) in
    terminate-Holds _ _ (
      print_rows-Holds f fields rows (head ++ line_end)
        (print line_end (print_names (f ∷ fields) empty_buf)) n e headed below)

-- When there is a column, no column's values are longer than 4086 bytes, no name is more than 5
-- bytes longer than its column's values, and in each row every value is at most 2 bytes shorter
-- than the longest of its column, and the whole text has fewer than 2^31 bytes, then the buffer
-- holds the whole text of the result, nothing is cut off or written past its end, and buf_pos stays
-- an int.
pub format-exact :
    (t : Table)
    → IsEvenTable t
    → length (rendering t) < int_limit
    → ((format t).text ≡ rendering t) × ((format t).cut ≡ false) × ((format t).overrun ≡ false)
unfolding format
format-exact t e below =
    let h = format-Holds t.fields t.rows e.0 e.1 e.2 below in (h.text, h.whole, h.inside)

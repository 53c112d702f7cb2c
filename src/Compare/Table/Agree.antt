-- ===== src/Compare/Table/Agree.antt =====
-- What two results with the same fields have in common when their texts
-- (src/drivers/compare/drv_compare.c) are the same.
use sysbench.Prelude.{
  ℕ, zero, suc, ◌+◌, ◌≤◌, ◌≡◌, ◌≢◌, ◌↔◌, ◌∙◌, refl, sym, ap, ap₂, none, some, List, [], ◌∷◌, ◌++◌,
  Option, arith, length, length-append,
}
use sysbench.Prelude.Text.{Str}
use sysbench.Compare.Table.{Field, Cell, pad, shown, cell_text, line_end}
use sysbench.Compare.Table.Rendering.{
  names_text, cells_text, rows_text, rendering, IsBounded, length-pad, length-shown,
  length-cell_text,
}

-- Two strings that differ in blanks at their ends at most.
abbrev pub UpToBlanks : Str → Str → Type 0
UpToBlanks [] [] = Unit {0}
UpToBlanks [] (d ∷ t) = (d ≡ b' ') × UpToBlanks [] t
UpToBlanks (c ∷ s) [] = (c ≡ b' ') × UpToBlanks s []
UpToBlanks (c ∷ s) (d ∷ t) = (c ≡ d) × UpToBlanks s t

abbrev pub AgreeRow : List Cell → List Cell → Type 0
AgreeRow [] [] = Unit {0}
AgreeRow (c ∷ cells) (d ∷ others) = UpToBlanks (shown c) (shown d) × AgreeRow cells others
AgreeRow _ _ = ⊥

abbrev pub AgreeRows : List (List Cell) → List (List Cell) → Type 0
AgreeRows [] [] = Unit {0}
AgreeRows (r ∷ rows) (q ∷ others) = AgreeRow r q × AgreeRows rows others
AgreeRows _ _ = ⊥

-- The rows whose lengths could be fetched.
abbrev pub present : List (Option (List Cell)) → List (List Cell)
present [] = []
present (none ∷ rows) = present rows
present (some cells ∷ rows) = cells ∷ present rows

abbrev pub BoundedRow : List Field → List Cell → Type 0
BoundedRow [] [] = Unit {0}
BoundedRow (f ∷ fields) (c ∷ cells) = IsBounded f c × BoundedRow fields cells
BoundedRow _ _ = ⊥

abbrev pub BoundedRows : List Field → List (List Cell) → Type 0
BoundedRows fields [] = Unit {0}
BoundedRows fields (r ∷ rows) = BoundedRow fields r × BoundedRows fields rows

head_inj : {c d : ℕ} {s t : Str} → c ∷ s ≡ d ∷ t → (c ≡ d) × (s ≡ t)
head_inj e = (cc, cc)

append-inj : (a b : Str) {x y : Str} → length a ≡ length b → a ++ x ≡ b ++ y → (a ≡ b) × (x ≡ y)
append-inj [] [] l e = (refl, e)
append-inj [] (d ∷ b) l e = absurd (omega arith)
append-inj (c ∷ a) [] l e = absurd (omega arith)
append-inj (c ∷ a) (d ∷ b) l e =
    let (h, t) = head_inj e in
    let (r, u) = append-inj a b (omega arith) t in (ap₂ (λ k s. k ∷ s) h r, u)

append_same : {a b x y : Str} → a ≡ b → x ≡ y → a ++ x ≡ b ++ y
append_same e f = ap₂ (λ s t. s ++ t) e f

pad_iff : (w : ℕ) (a b : Str) → length a ≤ w → length b ≤ w → (pad w a ≡ pad w b) ↔ UpToBlanks a b
unfolding pad
pad_iff zero [] [] h k = (λ _. tt, λ _. refl)
pad_iff zero (c ∷ a) b h k = absurd (omega arith)
pad_iff zero [] (d ∷ b) h k = absurd (omega arith)
pad_iff (suc w) [] [] h k = (λ _. tt, λ _. refl)
pad_iff (suc w) [] (d ∷ b) h k =
    let i = pad_iff w [] b (omega arith) (omega arith) in
    (λ e. (sym (head_inj e).0, i.0 (head_inj e).1), λ u. ap₂ (λ x s. x ∷ s) (sym u.0) (i.1 u.1))
pad_iff (suc w) (c ∷ a) [] h k =
    let i = pad_iff w a [] (omega arith) (omega arith) in
    (λ e. ((head_inj e).0, i.0 (head_inj e).1), λ u. ap₂ (λ x s. x ∷ s) u.0 (i.1 u.1))
pad_iff (suc w) (c ∷ a) (d ∷ b) h k =
    let i = pad_iff w a b (omega arith) (omega arith) in
    (λ e. ((head_inj e).0, i.0 (head_inj e).1), λ u. ap₂ (λ x s. x ∷ s) u.0 (i.1 u.1))

cell_text_iff :
    (f : Field) (c d : Cell)
    → IsBounded f c
    → IsBounded f d
    → (cell_text f c ≡ cell_text f d) ↔ UpToBlanks (shown c) (shown d)
unfolding cell_text
cell_text_iff f c d h k =
    let w = f.max_length + 2 in
    let i =
      pad_iff w (shown c) (shown d) (omega (arith, length-shown c))
        (omega (arith, length-shown d)) in
    let wide : length (pad w (shown c)) ≡ length (pad w (shown d)) =
      omega
        (arith, length-pad w (shown c), length-pad w (shown d), length-shown c, length-shown d) in
    (
      λ e. i.0 (append-inj (pad w (shown c)) (pad w (shown d)) wide (head_inj (head_inj e).1).1).0,
      λ u. ap (λ s. b'|' ∷ b' ' ∷ (s ++ (b' ' ∷ []))) (i.1 u),
    )

cells_text_iff :
    (fields : List Field) (cells others : List Cell)
    → BoundedRow fields cells
    → BoundedRow fields others
    → (cells_text fields cells ≡ cells_text fields others) ↔ AgreeRow cells others
cells_text_iff [] [] [] h k = (λ _. tt, λ _. refl)
cells_text_iff [] [] (d ∷ others) h k = absurd k
cells_text_iff [] (c ∷ cells) others h k = absurd h
cells_text_iff (f ∷ fields) [] others h k = absurd h
cells_text_iff (f ∷ fields) (c ∷ cells) [] h k = absurd k
cells_text_iff (f ∷ fields) (c ∷ cells) (d ∷ others) h k =
    let i = cell_text_iff f c d h.0 k.0 in
    let j = cells_text_iff fields cells others h.1 k.1 in
    (
      λ e.
          let (a, b) =
            append-inj (cell_text f c) (cell_text f d)
              (length-cell_text f c h.0 ∙ sym (length-cell_text f d k.0)) e in
          (i.0 a, j.0 b),
      λ u. append_same (i.1 u.0) (j.1 u.1),
    )

length-cells_text :
    (fields : List Field) (cells others : List Cell)
    → BoundedRow fields cells
    → BoundedRow fields others
    → length (cells_text fields cells) ≡ length (cells_text fields others)
length-cells_text [] [] [] h k = refl
length-cells_text [] [] (d ∷ others) h k = absurd k
length-cells_text [] (c ∷ cells) others h k = absurd h
length-cells_text (f ∷ fields) [] others h k = absurd h
length-cells_text (f ∷ fields) (c ∷ cells) [] h k = absurd k
length-cells_text (f ∷ fields) (c ∷ cells) (d ∷ others) h k = omega (
  arith,
  length-append (cell_text f c) (cells_text fields cells),
  length-append (cell_text f d) (cells_text fields others),
  length-cell_text f c h.0,
  length-cell_text f d k.0,
  length-cells_text fields cells others h.1 k.1,
)

abbrev lines_text : List Field → List (List Cell) → Str
lines_text fields [] = []
lines_text fields (r ∷ rows) = (cells_text fields r ++ line_end) ++ lines_text fields rows

rows_text-present :
    (fields : List Field) (rows : List (Option (List Cell)))
    → rows_text fields rows ≡ lines_text fields (present rows)
rows_text-present fields [] = refl
rows_text-present fields (none ∷ rows) = rows_text-present fields rows
rows_text-present fields (some r ∷ rows) = append_same refl (rows_text-present fields rows)

-- A line is not empty.
no_line : (a b : Str) → [] ≢ (a ++ line_end) ++ b
no_line [] b e = cc
no_line (c ∷ a) b e = cc

module _ (fields : List Field) where
  lines_text_iff :
      (rows others : List (List Cell))
      → BoundedRows fields rows
      → BoundedRows fields others
      → (lines_text fields rows ≡ lines_text fields others) ↔ AgreeRows rows others
  lines_text_iff [] [] h k = (λ _. tt, λ _. refl)
  lines_text_iff [] (q ∷ others) h k =
      (λ e. absurd (no_line (cells_text fields q) (lines_text fields others) e), λ u. absurd u)
  lines_text_iff (r ∷ rows) [] h k =
      (λ e. absurd (no_line (cells_text fields r) (lines_text fields rows) (sym e)), λ u. absurd u)
  lines_text_iff (r ∷ rows) (q ∷ others) h k =
      let i = cells_text_iff fields r q h.0 k.0 in
      let j = lines_text_iff rows others h.1 k.1 in
      let wide : length (cells_text fields r) ≡ length (cells_text fields q) =
        length-cells_text fields r q h.0 k.0 in
      (
        λ e.
            let (a, b) =
              append-inj (cells_text fields r ++ line_end) (cells_text fields q ++ line_end)
                (omega (
                  arith,
                  wide,
                  length-append (cells_text fields r) line_end,
                  length-append (cells_text fields q) line_end,
                ))
                e in
            (i.0 (append-inj (cells_text fields r) (cells_text fields q) wide a).0, j.0 b),
        λ u. append_same (append_same (i.1 u.0) refl) (j.1 u.1),
      )

  -- The texts of two results with the same fields, whose values are no longer than those say, are
  -- the same exactly when the results agree.
  pub rendering_iff :
      (rows others : List (Option (List Cell)))
      → BoundedRows fields (present rows)
      → BoundedRows fields (present others)
      → (rendering (record { fields = fields; rows = rows })
          ≡ rendering (record { fields = fields; rows = others }))
        ↔ AgreeRows (present rows) (present others)
  rendering_iff rows others h k =
      let i = lines_text_iff (present rows) (present others) h k in
      let head = names_text fields ++ line_end in
      (
        λ e. i.0 (
            sym (rows_text-present fields rows)
            ∙ (append-inj head head refl e).1
            ∙ rows_text-present fields others),
        λ u.
            append_same refl
              (rows_text-present fields rows ∙ i.1 u ∙ sym (rows_text-present fields others)),
      )

-- ===== src/Compare/Table/Rendering.antt =====
-- The whole text of a result of a SELECT, without a buffer (src/drivers/compare/drv_compare.c).
use sysbench.Prelude.{
  ℕ, zero, suc, ◌+◌, ◌≤◌, ◌≡◌, Option, none, some, List, [], ◌∷◌, ◌++◌, arith, length,
  length-append, inl, inr, Bool-cases, ◌==◌,
}
use Prim.Native.Nat.{max}
use sysbench.Prelude.Text.{Str}
use sysbench.Compare.Table.{
  Field, Cell, Table, pad, until_nul, cell_length, shown, head_text, cell_text, line_end,
}

abbrev pub names_text : List Field → Str
names_text [] = []
names_text (f ∷ fields) = head_text f ++ names_text fields

abbrev pub cells_text : List Field → List Cell → Str
cells_text (f ∷ fields) (c ∷ cells) = cell_text f c ++ cells_text fields cells
cells_text _ _ = []

abbrev pub rows_text : List Field → List (Option (List Cell)) → Str
rows_text fields [] = []
rows_text fields (none ∷ rows) = rows_text fields rows
rows_text fields (some cells ∷ rows) =
    (cells_text fields cells ++ line_end) ++ rows_text fields rows

-- The text: a line with the names of the fields and a line for each row.
abbrev pub rendering : Table → Str
rendering t = (names_text t.fields ++ line_end) ++ rows_text t.fields t.rows

-- A value is no longer than the longest of its field.
abbrev pub IsBounded : Field → Cell → Type 0
IsBounded f c = cell_length c ≤ f.max_length

pub length-pad : (w : ℕ) (s : Str) → length (pad w s) ≡ max w (length s)
unfolding pad
length-pad zero s = omega arith
length-pad (suc w) [] = omega (arith, length-pad w [])
length-pad (suc w) (c ∷ s) = omega (arith, length-pad w s)

length-until_nul : (s : Str) → length (until_nul s) ≤ length s
unfolding until_nul
length-until_nul [] = omega arith
length-until_nul (c ∷ s) = elim (Bool-cases (c == 0)) [
  | inl nul ↦ rw (nul, until_nul) (omega arith)
  | inr byte ↦ rw (byte, until_nul) (omega (arith, length-until_nul s))
]

pub length-shown : (c : Cell) → length (shown c) ≤ cell_length c
unfolding shown cell_length
length-shown none = omega arith
length-shown (some v) = length-until_nul v

pub length-head_text :
    (f : Field) → length (head_text f) ≤ 2 + max (f.max_length + 2) (length f.name)
unfolding head_text
length-head_text f =
    omega (arith, length-pad (f.max_length + 2) (until_nul f.name), length-until_nul f.name)

pub head_text-width :
    (f : Field) → length f.name ≤ f.max_length + 2 → length (head_text f) ≡ f.max_length + 4
unfolding head_text
head_text-width f h =
    omega (arith, length-pad (f.max_length + 2) (until_nul f.name), length-until_nul f.name)

-- A value that is no longer than the longest is printed as wide as that.
pub length-cell_text :
    (f : Field) (c : Cell) → IsBounded f c → length (cell_text f c) ≡ f.max_length + 5
unfolding cell_text
length-cell_text f c h = omega (
  arith,
  length-append (pad (f.max_length + 2) (shown c)) (b' ' ∷ []),
  length-pad (f.max_length + 2) (shown c),
  length-shown c,
)

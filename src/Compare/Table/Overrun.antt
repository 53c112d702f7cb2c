-- ===== src/Compare/Table/Overrun.antt =====
-- A result that the buffer (src/drivers/compare/drv_compare.c) does not grow for: a wide column
-- with short values.
use sysbench.Prelude.{
  ℕ, zero, suc, ◌+◌, ◌-◌, ◌*◌, ◌≤◌, ◌<◌, ◌≡◌, refl, true, false, Option, none, some, List, [], ◌∷◌,
  ◌++◌, arith, length, replicate, ltb, leb, ◌&&◌, inl, inr, Bool-cases,
}
use sysbench.Prelude.Text.{Str}
use sysbench.Compare.Table.{
  Field, Cell, Buf, int_limit, print, grow, cell_length, head_text, cell_text, line_end,
  print_names, print_cells, print_rows, terminate, empty_buf, format,
}
use sysbench.Compare.Table.Rendering.{head_text-width, length-cell_text}

print-overrun : (s : Str) (b : Buf) → b.overrun ≡ true → (print s b).overrun ≡ true
unfolding print
print-overrun s b h = elim (Bool-cases (leb int_limit (b.pos + length s))) [
  | inl beyond ↦ rw beyond refl
  | inr small ↦ elim (Bool-cases (ltb b.size b.pos)) [
    | inl past ↦ rw (small, past) refl
    | inr inside ↦ elim (Bool-cases (ltb (length s) (b.size - b.pos))) [
      | inl fits ↦ rw (small, inside, fits) h
      | inr long ↦ rw (small, inside, long) h
    ]
  ]
]

grow-overrun : (n : ℕ) (b : Buf) → (grow n b).overrun ≡ b.overrun
unfolding grow
grow-overrun n b = elim (Bool-cases (leb b.pos b.size && ltb (b.size - b.pos) (n + 10))) [
  | inl full ↦ rw full refl
  | inr room ↦ rw room refl
]

print_cells-overrun :
    (fields : List Field) (cells : List Cell) (b : Buf)
    → b.overrun ≡ true
    → (print_cells fields cells b).overrun ≡ true
unfolding print_cells
print_cells-overrun [] cells b h = h
print_cells-overrun (f ∷ fields) [] b h = h
print_cells-overrun (f ∷ fields) (c ∷ cells) b h =
    print_cells-overrun fields cells _
      (print-overrun (cell_text f c) (grow (cell_length c) b) (cc (grow-overrun (cell_length c) b)))

print_rows-overrun :
    (fields : List Field) (rows : List (Option (List Cell))) (b : Buf)
    → b.overrun ≡ true
    → (print_rows fields rows b).overrun ≡ true
unfolding print_rows
print_rows-overrun fields [] b h = h
print_rows-overrun fields (none ∷ rows) b h = print_rows-overrun fields rows b h
print_rows-overrun fields (some cells ∷ rows) b h =
    print_rows-overrun fields rows _
      (print-overrun line_end (print_cells fields cells b) (print_cells-overrun fields cells b h))

-- Printing moves the position and leaves the size.
print-moves :
    (s : Str) (b : Buf) → ((print s b).pos ≡ b.pos + length s) × ((print s b).size ≡ b.size)
unfolding print
print-moves s b = elim (Bool-cases (leb int_limit (b.pos + length s))) [
  | inl beyond ↦ rw beyond (refl, refl)
  | inr small ↦ elim (Bool-cases (ltb b.size b.pos)) [
    | inl past ↦ rw (small, past) (refl, refl)
    | inr inside ↦ elim (Bool-cases (ltb (length s) (b.size - b.pos))) [
      | inl fits ↦ rw (small, inside, fits) (refl, refl)
      | inr long ↦ rw (small, inside, long) (refl, refl)
    ]
  ]
]

grow-idle : (n : ℕ) (b : Buf) → b.pos + n + 10 ≤ b.size → grow n b ≡ b
unfolding grow
grow-idle n b h =
    let room : (leb b.pos b.size && ltb (b.size - b.pos) (n + 10)) ≡ false = ground arith in
    rw room refl

print-past : (s : Str) (b : Buf) → b.size < b.pos → (print s b).overrun ≡ true
unfolding print
print-past s b h =
    let past : ltb b.size b.pos ≡ true = ground arith in
    elim (Bool-cases (leb int_limit (b.pos + length s))) [
      | inl beyond ↦ rw beyond refl
      | inr small ↦ rw (small, past) refl
    ]

terminate-overrun : (b : Buf) → b.overrun ≡ true → (terminate b).overrun ≡ true
unfolding terminate
terminate-overrun b h = elim (Bool-cases (ltb b.pos b.size)) [
  | inl room ↦ rw room h
  | inr full ↦ rw full refl
]

-- The buffer has its first size, and the position is known.
At : ℕ → Buf → Type 0
At p b = (b.pos ≡ p) × (b.size ≡ 4096)

print-At : (s : Str) (p : ℕ) (b : Buf) → At p b → At (p + length s) (print s b)
unfolding At
print-At s p b h = let (q, z) = print-moves s b in (omega arith, omega arith)

module _ (f : Field) where
  abbrev empty_cell : Option (List Cell)
  empty_cell = some (some [] ∷ [])

  cell-At :
      (p : ℕ) (b : Buf)
      → p + 10 ≤ 4096
      → At p b
      → At (p + (f.max_length + 5)) (print_cells (f ∷ []) (some [] ∷ []) b)
  unfolding print_cells cell_length At
  cell-At p b room h =
      let long = length-cell_text f (some []) (omega arith) in
      rw (grow-idle 0 b (omega arith))
        (let (q, z) = print-moves (cell_text f (some [])) b in (omega arith, omega arith))

  rows-At :
      (k : ℕ) (p : ℕ) (rest : List (Option (List Cell))) (b : Buf)
      → p + k * (f.max_length + 7) + 10 ≤ 4096
      → 4096 < p + k * (f.max_length + 7) + (f.max_length + 5)
      → At p b
      → (print_rows (f ∷ []) (replicate (suc k) empty_cell ++ rest) b).overrun ≡ true
  unfolding print_rows At
  rows-At zero p rest b room wide h =
      let c = cell-At p b (omega arith) h in
      print_rows-overrun (f ∷ []) rest _
        (print-past line_end (print_cells (f ∷ []) (some [] ∷ []) b) (omega arith))
  rows-At (suc k) p rest b room wide h =
      let b' = print_cells (f ∷ []) (some [] ∷ []) b in
      rows-At k (p + (f.max_length + 7)) rest (print line_end b') (omega arith) (omega arith) (
        let (q, z) = print-moves line_end b' in
        let c = cell-At p b (omega arith) h in (omega arith, omega arith))

-- A result with one column, whose first k + 1 values are empty: the buffer does not grow for them.
-- When the k-th leaves from 10 to m + 4 bytes, where m is the length of the column's longest value,
-- the next one, printed as wide as that, is written past the end of the buffer.
pub format-overrun :
    (f : Field) (k : ℕ) (rest : List (Option (List Cell)))
    → length f.name ≤ f.max_length + 2
    → let pos = f.max_length + 6 + k * (f.max_length + 7) in
      pos + 10 ≤ 4096
      → 4096 < pos + (f.max_length + 5)
      → (format (record {
        fields = f ∷ [];
        rows = replicate (suc k) (some (some [] ∷ [])) ++ rest;
      })).overrun
        ≡ true
unfolding format print_names At
format-overrun f k rest short room wide =
    let named = print (head_text f) (grow f.max_length empty_buf) in
    let same = grow-idle f.max_length empty_buf (omega arith) in
    let width = head_text-width f short in
    let (q, z) = print-moves (head_text f) empty_buf in
    let at : At (f.max_length + 4) named = rw same (omega arith, omega arith) in
    let (q', z') = print-moves line_end named in
    terminate-overrun _ (
      rows-At f k (f.max_length + 6) rest (print line_end named) room wide
        (omega arith, omega arith))

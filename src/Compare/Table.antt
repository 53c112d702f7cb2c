-- ===== src/Compare/Table.antt =====
-- src/drivers/compare/drv_compare.c: the text that mysql_drv_query makes of a result of a SELECT,
-- to compare it with those of the other servers. What is printed past the size of the buffer is
-- cut off by snprintf, but the position advances by the whole length.
pub mod Rendering
pub mod Exact
pub mod Agree
pub mod Overrun
use sysbench.Prelude.{
  ℕ, zero, suc, ◌+◌, ◌-◌, ◌*◌, Bool, true, false, Option, none, some, List, [], ◌∷◌, ◌++◌, ltb, leb,
  ◌==◌, ◌&&◌, if◌then◌else◌, length, take,
}
use sysbench.Prelude.Text.{Str}

-- The members of MYSQL_FIELD that are used; max_length is the length of the longest value.
pub record Field : Type 0 where
  pub name : Str
  pub max_length : ℕ

-- A value of a row, as long as mysql_fetch_lengths says; none is a null pointer, of length 0.
abbrev pub Cell : Type 0
Cell = Option Str

-- A MYSQL_RES; a row for which mysql_fetch_lengths fails is none.
pub record Table : Type 0 where
  pub fields : List Field
  pub rows : List (Option (List Cell))

-- The buffer: its size, the position of the next byte, and the string that stands in it. `cut` says
-- that a text was cut off, so that nothing that follows changes the string; `overrun` says that
-- something was written past the end, or that the position has left the range of an int.
pub record Buf : Type 0 where
  pub size : ℕ
  pub pos : ℕ
  pub text : Str
  pub cut : Bool
  pub overrun : Bool

-- The first number above the range of an int, of which buf_pos is one.
abbrev pub int_limit : ℕ
int_limit = 2147483648

-- buf_pos += snprintf(buf + buf_pos, buf_size - buf_pos, ...) of a text; the difference wraps when
-- the position is past the end.
unfoldable pub print : Str → Buf → Buf
print s b =
    let added = if b.cut then b.text else b.text ++ s in
    let part = if b.cut then b.text else b.text ++ take (b.size - b.pos - 1) s in
    let moved = b.pos + length s in
    if leb int_limit moved
    then record b { pos = moved; overrun = true }
    else if ltb b.size b.pos
    then record b { pos = moved; overrun = true }
    else if ltb (length s) (b.size - b.pos)
    then record b { pos = moved; text = added }
    else record b { pos = moved; text = part; cut = true }

-- The buffer is doubled when less is left than a length and 10; realloc returns a buffer.
unfoldable pub grow : ℕ → Buf → Buf
grow len b =
    if leb b.pos b.size && ltb (b.size - b.pos) (len + 10)
    then record b { size = b.size * 2 }
    else b

-- "%-*s": blanks up to a width
unfoldable pub pad : ℕ → Str → Str
pad zero s = s
pad (suc w) [] = b' ' ∷ pad w []
pad (suc w) (c ∷ s) = c ∷ pad w s

-- The bytes of a string that printf shows.
unfoldable pub until_nul : Str → Str
until_nul [] = []
until_nul (c ∷ s) = let rest = until_nul s in if c == 0 then [] else c ∷ rest

unfoldable pub cell_length : Cell → ℕ
cell_length none = 0
cell_length (some v) = length v

-- "%.*s" of a value: with its precision of 0, nothing of "NULL" is shown.
unfoldable pub shown : Cell → Str
unfolding until_nul
shown none = []
shown (some v) = until_nul v

-- "| %-*s" and "| %-*.*s "
unfoldable pub head_text : Field → Str
unfolding pad until_nul
head_text f = b'|' ∷ b' ' ∷ pad (f.max_length + 2) (until_nul f.name)

unfoldable pub cell_text : Field → Cell → Str
unfolding pad shown
cell_text f c = b'|' ∷ b' ' ∷ (pad (f.max_length + 2) (shown c) ++ (b' ' ∷ []))

abbrev pub line_end : Str
line_end = b'|' ∷ b'\n' ∷ []

unfoldable pub print_names : List Field → Buf → Buf
unfolding print grow head_text
print_names [] b = b
print_names (f ∷ fields) b = print_names fields (print (head_text f) (grow f.max_length b))

unfoldable pub print_cells : List Field → List Cell → Buf → Buf
unfolding print grow cell_text cell_length
print_cells (f ∷ fields) (c ∷ cells) b =
    print_cells fields cells (print (cell_text f c) (grow (cell_length c) b))
print_cells _ _ b = b

unfoldable pub print_rows : List Field → List (Option (List Cell)) → Buf → Buf
unfolding print print_cells
print_rows fields [] b = b
print_rows fields (none ∷ rows) b = print_rows fields rows b
print_rows fields (some cells ∷ rows) b =
    print_rows fields rows (print line_end (print_cells fields cells b))

-- buf[buf_pos] = '\0'
unfoldable pub terminate : Buf → Buf
terminate b = if ltb b.pos b.size then b else record b { overrun = true }

abbrev pub empty_buf : Buf
empty_buf = record { size = 4096; pos = 0; text = []; cut = false; overrun = false }

-- The buffer that a result leaves.
unfoldable pub format : Table → Buf
unfolding print print_names print_rows terminate
format t = terminate (print_rows t.fields t.rows (print line_end (print_names t.fields empty_buf)))

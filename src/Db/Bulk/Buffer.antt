-- ===== src/Db/Bulk/Buffer.antt =====
-- The statement in the buffer of an insert of many rows (src/db_driver.c), and what a flush and a
-- further row do to it.
use mathlib.Core.List.{append-nil, append_assoc}
use sysbench.Prelude.{
  ℕ, ◌+◌, ◌≤◌, ◌<◌, ◌≡◌, ◌∙◌, refl, sym, ap, Bool, true, false, ◌||◌, some, List, [], ◌∷◌, ◌++◌,
  arith, u32, u32_mod, ltb, leb, ◌==◌, length, length-append, take, if-elim,
}
use sysbench.Prelude.Text.{Str}
use sysbench.Db.{Session}
use sysbench.Db.Bulk.{Bulk, Answers, run, commit_rows, do_insert, append_row}

-- The statement for rows, the last one first.
abbrev pub statement : Str → List Str → Str
statement text [] = text
statement text (row ∷ []) = text ++ row
statement text (row ∷ r ∷ rows) = statement text (r ∷ rows) ++ (b',' ∷ row)

-- The buffer, of `size` bytes, holds the statement for the rows and has room for its NUL.
pub record Holds (size : ℕ) (text : Str) (rows : List Str) (b : Bulk) : Type 0 where
  pub buffer : b.buffer ≡ some (statement text rows)
  pub ptr : b.ptr ≡ length (statement text rows)
  pub values : b.values ≡ length text
  pub cnt : b.cnt ≡ length rows
  pub buflen : b.buflen ≡ size
  pub room : length (statement text rows) + 1 ≤ size
  pub small : size + 1 < u32_mod
  pub inside : b.overrun ≡ false

take-append : (xs ys : Str) → take (length xs) (xs ++ ys) ≡ xs
take-append [] ys = refl
take-append (x ∷ xs) ys = ap (λ t. x ∷ t) (take-append xs ys)

pub take-length : (xs : Str) → take (length xs) xs ≡ xs
take-length [] = refl
take-length (x ∷ xs) = ap (λ t. x ∷ t) (take-length xs)

-- A statement begins with its text.
pub statement-rest :
    (text : Str) (rows : List Str) → (rest : Str) × (statement text rows ≡ text ++ rest)
statement-rest text [] = ([], sym (append-nil text))
statement-rest text (row ∷ []) = (row, refl)
statement-rest text (row ∷ r ∷ rows) =
    let (rest, e) = statement-rest text (r ∷ rows) in
    (rest ++ (b',' ∷ row), ap (λ t. t ++ (b',' ∷ row)) e ∙ append_assoc text rest (b',' ∷ row))

take-statement : (text : Str) (rows : List Str) → take (length text) (statement text rows) ≡ text
take-statement text rows = let (rest, e) = statement-rest text rows in rw e (take-append text rest)

-- What a flush leaves as it was, and what it resets.
pub record IsFlushed (b c : Bulk) : Type 0 where
  pub buffer : c.buffer ≡ b.buffer
  pub values : c.values ≡ b.values
  pub ptr : c.ptr ≡ b.values
  pub cnt : c.cnt ≡ 0
  pub buflen : c.buflen ≡ b.buflen
  pub overrun : c.overrun ≡ b.overrun

-- What a commit leaves.
record IsKept (b c : Bulk) : Type 0 where
  buffer : c.buffer ≡ b.buffer
  values : c.values ≡ b.values
  buflen : c.buflen ≡ b.buflen
  overrun : c.overrun ≡ b.overrun

commit_rows-IsKept :
    (l : Bool) (a : Answers) (cnt : ℕ) (b : Bulk) → IsKept b (commit_rows l a cnt b).0
unfolding commit_rows
commit_rows-IsKept l a cnt b =
    if-elim Kept (b.commit_max == 0) (λ _. same)
      (λ _.
        if-elim Kept (l || leb b.commit_max (u32 (b.commit_cnt + cnt)))
          (λ _. if-elim Kept (run a.commit_freed a.commit _ b.session).1 (λ _. same) (λ _. same))
          (λ _. same))
  where
    Kept : Bulk × Bool → Type 0
    Kept o = IsKept b o.0

    same : {s : Session} {n : ℕ} → IsKept b (record b { session = s; commit_cnt = n })
    same = record { buffer = refl; values = refl; buflen = refl; overrun = refl }

pub do_insert-IsFlushed :
    (l : Bool) (a : Answers) (b : Bulk)
    → 0 < b.cnt
    → (do_insert l a b).1 ≡ 0
    → IsFlushed b (do_insert l a b).0
unfolding do_insert
do_insert-IsFlushed l a b some_row =
    if-elim Flushed (b.cnt == 0) (λ none_there. absurd (ground arith))
      (λ _.
        if-elim Flushed (run a.insert_freed a.insert _ b.session).1 (λ _ e. absurd (omega arith))
          (λ _.
            if-elim Flushed (commit_rows l a b.cnt _).1 (λ _ e. absurd (omega arith))
              (λ _ e.
                let k = commit_rows-IsKept l a b.cnt (record b { session = _ }) in
                record {
                  buffer = k.buffer;
                  values = k.values;
                  ptr = k.values;
                  cnt = refl;
                  buflen = k.buflen;
                  overrun = k.overrun;
                })))
  where
    Flushed : Bulk × ℕ → Type 0
    Flushed o = o.1 ≡ 0 → IsFlushed b o.0

length-statement : (text : Str) (rows : List Str) → length rows ≤ length (statement text rows) + 1
length-statement text [] = omega arith
length-statement text (row ∷ []) = omega arith
length-statement text (row ∷ r ∷ rows) = omega (
  arith,
  length-statement text (r ∷ rows),
  length-append (statement text (r ∷ rows)) (b',' ∷ row),
)

pub append-first :
    (size : ℕ) (text row : Str) (rows : List Str) (c : Bulk)
    → c.ptr ≡ length text
    → c.values ≡ length text
    → c.cnt ≡ 0
    → c.buflen ≡ size
    → c.overrun ≡ false
    → size + 1 < u32_mod
    → length text + length row + 1 ≤ size
    → Holds size text (row ∷ []) (append_row (statement text rows) row c).0
unfolding append_row
append-first size text row rows c p v n l o small fits =
    rw (p, n, l, o)
      (record {
        buffer = ap (λ t. some (t ++ row)) (take-statement text rows);
        ptr = omega (arith, length-append text row);
        values = v;
        cnt = omega arith;
        buflen = refl;
        room = omega (arith, length-append text row);
        small = small;
        inside = ground arith;
      })

pub append-more :
    (size : ℕ) (text row r : Str) (rows : List Str) (b : Bulk)
    → Holds size text (r ∷ rows) b
    → length (statement text (r ∷ rows)) + length row + 2 ≤ size
    → Holds size text (row ∷ r ∷ rows) (append_row (statement text (r ∷ rows)) row b).0
unfolding append_row
append-more size text row r rows b h fits =
    let st = statement text (r ∷ rows) in
    let grown = length-append st (b',' ∷ row) in
    let later : ltb 0 b.cnt ≡ true = ground (arith, h.cnt) in
    rw (later, h.ptr, h.cnt, h.buflen, h.inside)
      (record {
        buffer = ap (λ t. some (t ++ (b',' ∷ row))) (take-length st);
        ptr = omega (arith, grown);
        values = h.values;
        cnt = omega (arith, length-statement text (r ∷ rows));
        buflen = refl;
        room = omega (arith, grown);
        small = h.small;
        inside = ground arith;
      })

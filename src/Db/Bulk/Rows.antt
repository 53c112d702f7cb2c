-- ===== src/Db/Bulk/Rows.antt =====
-- The rows in the buffer of an insert of many rows (src/db_driver.c).
use sysbench.Prelude.{
  ℕ, ◌+◌, ◌≤◌, ◌<◌, ◌≡◌, ◌∙◌, ◌⊎◌, inl, inr, refl, sym, subst, Bool, true, false, some, List, [],
  ◌∷◌, arith, ltb, ◌==◌, ==_iff, if◌then◌else◌, length, length-append, take, if-elim,
}
use sysbench.Prelude.Text.{Str}
use sysbench.Db.{Session, is_none, guard}
use sysbench.Db.Bulk.{Bulk, Answers, text_of, do_insert, append_row, add_row, bulk_insert_next}
use sysbench.Db.Bulk.Buffer.{
  statement, statement-rest, take-length, Holds, do_insert-IsFlushed, append-first, append-more,
}
use sysbench.Db.Bulk.Sending.{Sent, do_insert-Sent}

room_left :
    (ptr len cnt buflen : ℕ)
    → 0 < cnt
    → ltb buflen (ptr + len + 1 + (if ltb 0 cnt then 1 else 0)) ≡ false
    → ptr + len + 2 ≤ buflen
room_left ptr len cnt buflen some_row spare = ground arith

-- What a call that returns 0 has done from `before`: it has added the row to those in the buffer
-- and sent nothing, or it has sent these, which the driver has taken, and the row is alone.
abbrev pub Added : ℕ → Answers → Str → List Str → Str → Session → Bulk → Type 0
Added size a text rows row before b =
    (Holds size text (row ∷ rows) b × (b.session ≡ before))
    ⊎ (Holds size text (row ∷ []) b
        × Sent (statement text rows) before.calls b.session.calls
        × (is_none a.insert.status ≡ true))

module _ (size : ℕ) (a : Answers) (text row : Str) where
  Outcome : List Str → Session → Bulk × ℕ → Type 0
  Outcome rows before o = o.1 ≡ 0 → Added size a text rows row before o.0

  append_row-session : (st : Str) (c : Bulk) → (append_row st row c).0.session ≡ c.session
  unfolding append_row
  append_row-session st c = refl

  -- A flush, and the row in the empty buffer.
  flush-Added :
      (r : Str) (rows : List Str) (b : Bulk)
      → Holds size text (r ∷ rows) b
      → length text + length row + 1 ≤ size
      → (do_insert false a b).1 ≡ 0
      → Added size a text
          (r ∷ rows)
          row
          b.session
          (append_row (statement text (r ∷ rows)) row (do_insert false a b).0).0
  flush-Added r rows b h fits sent =
      let f = do_insert-IsFlushed false a b (omega (arith, h.cnt)) sent in
      let (calls, fine) = do_insert-Sent false a b (omega (arith, h.cnt)) sent in
      let st = statement text (r ∷ rows) in
      let c = (do_insert false a b).0 in
      let whole : take b.ptr (text_of b.buffer) ≡ st = rw (h.ptr, h.buffer) (take-length st) in
      let calls' = subst (λ t. Sent t b.session.calls c.session.calls) whole calls in
      inr (
        append-first size text row (r ∷ rows) c (f.ptr ∙ h.values) (f.values ∙ h.values) f.cnt
            (f.buflen ∙ h.buflen) (f.overrun ∙ h.inside) h.small fits,
        subst (λ s. Sent st b.session.calls s.calls) (sym (append_row-session st c)) calls',
        fine,
      )

  -- The buffer after db_bulk_insert_next has added a row that fits behind the text of the
  -- statement.
  add_row-Added :
      (rows : List Str) (b : Bulk)
      → Holds size text rows b
      → length text + length row + 1 ≤ size
      → (add_row a (some (statement text rows)) row b).1 ≡ 0
      → Added size a text rows row b.session (add_row a (some (statement text rows)) row b).0
  unfolding add_row Outcome
  add_row-Added [] b h fits =
      if-elim (Outcome [] b.session)
        (ltb b.buflen (b.ptr + length row + 1 + (if ltb 0 b.cnt then 1 else 0)))
        (λ full. absurd (ground (arith, h.ptr, h.cnt, h.buflen)))
        (λ _ e. inl (
          append-first size text row [] b h.ptr h.values h.cnt h.buflen h.inside h.small fits,
          append_row-session text b,
        ))
  add_row-Added (r ∷ rows) b h fits =
      if-elim (Outcome (r ∷ rows) b.session)
        (ltb b.buflen (b.ptr + length row + 1 + (if ltb 0 b.cnt then 1 else 0)))
        (λ full.
          if-elim (Outcome (r ∷ rows) b.session) (b.cnt == 0)
            (λ empty. absurd (ground (arith, h.cnt)))
            (λ _.
              if-elim (Outcome (r ∷ rows) b.session) ((do_insert false a b).1 == 0)
                (λ sent e. flush-Added r rows b h fits ((==_iff _ 0).0 sent))
                (λ _ e. absurd (omega arith))))
        (λ spare e. inl (
          append-more size text row r rows b h (
              rw (← h.ptr, ← h.buflen)
                (room_left b.ptr (length row) b.cnt b.buflen (omega (arith, h.cnt)) spare)),
          append_row-session (statement text (r ∷ rows)) b,
        ))

  append_row-overrun :
      (rows : List Str) (c : Bulk)
      → c.ptr ≡ length text
      → c.cnt ≡ 0
      → c.buflen ≡ size
      → size < length text + length row + 1
      → (append_row (statement text rows) row c).0.overrun ≡ true
  unfolding append_row
  append_row-overrun rows c p n l long = rw (p, n, l) (ground arith)

  add_row-overrun :
      (r : Str) (rows : List Str) (b : Bulk)
      → Holds size text (r ∷ rows) b
      → size < length text + length row + 1
      → (add_row a (some (statement text (r ∷ rows))) row b).1 ≡ 0
      → (add_row a (some (statement text (r ∷ rows))) row b).0.overrun ≡ true
  unfolding add_row
  add_row-overrun r rows b h long =
      if-elim Overrun (ltb b.buflen (b.ptr + length row + 1 + (if ltb 0 b.cnt then 1 else 0)))
        (λ full.
          if-elim Overrun (b.cnt == 0) (λ empty. absurd (ground (arith, h.cnt)))
            (λ _.
              if-elim Overrun ((do_insert false a b).1 == 0)
                (λ sent e.
                  let f =
                    do_insert-IsFlushed false a b (omega (arith, h.cnt)) ((==_iff _ 0).0 sent) in
                  append_row-overrun (r ∷ rows) (do_insert false a b).0 (f.ptr ∙ h.values) f.cnt
                    (f.buflen ∙ h.buflen) long)
                (λ _ e. absurd (omega arith))))
        (λ spare e. absurd (omega (arith, enough spare, longer, h.ptr, h.buflen)))
    where
      Overrun : Bulk × ℕ → Type 0
      Overrun o = o.1 ≡ 0 → o.0.overrun ≡ true

      enough :
          ltb b.buflen (b.ptr + length row + 1 + (if ltb 0 b.cnt then 1 else 0)) ≡ false
          → b.ptr + length row + 2 ≤ b.buflen
      enough spare = room_left b.ptr (length row) b.cnt b.buflen (omega (arith, h.cnt)) spare

      longer : length text ≤ length (statement text (r ∷ rows))
      longer =
          let (rest, e) = statement-rest text (r ∷ rows) in
          rw e (omega (arith, length-append text rest))

moved :
    {size : ℕ} {text : Str} {rows : List Str} {b : Bulk} (s : Session)
    → Holds size text rows b
    → Holds size text rows (record b { session = s; buffer = some (statement text rows) })
moved s h = record {
  buffer = refl;
  ptr = h.ptr;
  values = h.values;
  cnt = h.cnt;
  buflen = h.buflen;
  room = h.room;
  small = h.small;
  inside = h.inside;
}

-- When db_bulk_insert_next returns 0 for a row that fits behind the statement's text, on a usable
-- connection: either the buffer holds the statement for the rows before and the row, and nothing
-- has been sent since the guard; or it holds the statement for the row alone, and since the guard
-- the statement for the rows before has been sent, which the driver has answered without an error,
-- and after it a COMMIT or nothing, apart from freeing result sets. In both cases nothing has been
-- written past the buffer's end.
pub bulk_insert_next-Holds :
    (size : ℕ) (freed : Bool) (a : Answers) (text row : Str) (rows : List Str) (b : Bulk)
    → Holds size text rows b
    → (guard freed b.session).1 ≡ true
    → length text + length row + 1 ≤ size
    → (bulk_insert_next freed a row b).1 ≡ 0
    → Added size a text rows row (guard freed b.session).0 (bulk_insert_next freed a row b).0
unfolding bulk_insert_next
bulk_insert_next-Holds size freed a text row rows b h usable fits =
    rw (usable, h.buffer)
      (add_row-Added size a text row rows
        (record b { session = (guard freed b.session).0; buffer = some (statement text rows) })
        (moved _ h) fits)

-- After another row, a row that does not fit behind the statement's text, for which
-- db_bulk_insert_next returns 0 on a usable connection, has been written past the end of the
-- buffer: nothing compares its length again once the rows before have been sent.
pub bulk_insert_next-overrun :
    (size : ℕ) (freed : Bool) (a : Answers) (text row r : Str) (rows : List Str) (b : Bulk)
    → Holds size text (r ∷ rows) b
    → (guard freed b.session).1 ≡ true
    → size < length text + length row + 1
    → (bulk_insert_next freed a row b).1 ≡ 0
    → (bulk_insert_next freed a row b).0.overrun ≡ true
unfolding bulk_insert_next
bulk_insert_next-overrun size freed a text row r rows b h usable long =
    rw (usable, h.buffer)
      (add_row-overrun size a text row r rows
        (record b {
          session = (guard freed b.session).0;
          buffer = some (statement text (r ∷ rows));
        })
        (moved _ h) long)

-- ===== src/Pgsql/Numbered.antt =====
-- The statement with numbered placeholders that pgsql_drv_prepare (src/drivers/pgsql/drv_pgsql.c)
-- makes.
use mathlib.Core.List.{append-nil, append_assoc}
use sysbench.Prelude.{
  ℕ, suc, ◌+◌, ◌-◌, ◌≤◌, ◌<◌, ◌≡◌, ◌∙◌, refl, sym, ap, subst, Bool, true, false, none, some, [],
  ◌∷◌, ◌++◌, arith, leb, ◌==◌, ◌||◌, if◌then◌else◌, inl, inr, Bool-cases, length, length-append,
}
use sysbench.Prelude.Text.{Str}
use sysbench.Compare.Placeholders.Room.{marks}
use sysbench.Pgsql.{Conversion, placeholder, convert_bytes, start, convert, store, drv_prepare}
use sysbench.Pgsql.Buffer.{longest, Fine}
use sysbench.Pgsql.Round.{convert_byte-Steps}

-- The text with its '?' numbered, from a number on.
abbrev pub numbered : ℕ → Str → Str
numbered n [] = []
numbered n (c ∷ s) = elim (c == b'?') [
  | true ↦ placeholder n ++ numbered (suc n) s
  | false ↦ c ∷ numbered n s
]

numbered-mark :
    (n c : ℕ) (q : Str)
    → (c == b'?') ≡ true
    → numbered n (c ∷ q) ≡ placeholder n ++ numbered (suc n) q
numbered-mark n c q mark = rw (mark, numbered) refl

numbered-plain : (n c : ℕ) (q : Str) → (c == b'?') ≡ false → numbered n (c ∷ q) ≡ c ∷ numbered n q
numbered-plain n c q plain = rw (plain, numbered) refl

convert_bytes-Fine :
    (q s : Str) (n : ℕ) (c : Conversion)
    → length s + length (numbered n q) < longest
    → Fine s n c
    → (c' : Conversion) × (convert_bytes 2 q c ≡ some c')
      × Fine (s ++ numbered n q) (n + marks q) c'
unfolding convert_bytes
convert_bytes-Fine [] s n c short h = (
  c,
  refl,
  subst (λ t. Fine t (n + 0) c) (sym (append-nil s)) (subst (λ k. Fine s k c) (sym (add_zero n)) h),
)
  where
    add_zero : (k : ℕ) → k + 0 ≡ k
    add_zero k = omega arith
convert_bytes-Fine (byte ∷ q) s n c short h =
    let (c', e, steps) = convert_byte-Steps s n byte c (omega arith) h in
    elim (Bool-cases (byte == b'?')) [
      | inl mark ↦
          let fine : Fine (s ++ placeholder n) (suc n) c' =
            subst
              (λ b.
                if b then Fine (s ++ placeholder n) (suc n) c' else Fine (s ++ (byte ∷ [])) n c')
              mark steps in
          let text = numbered-mark n byte q mark in
          let (d, f, g) =
            convert_bytes-Fine q (s ++ placeholder n) (suc n) c'
              (omega (
                arith,
                short,
                ap length text,
                length-append s (placeholder n),
                length-append (placeholder n) (numbered (suc n) q),
              ))
              fine in
          (
            d,
            rw e f,
            subst (λ k. Fine (s ++ numbered n (byte ∷ q)) k d) (rw mark (omega arith))
                (subst (λ t. Fine t (suc n + marks q) d)
                  (append_assoc s (placeholder n) (numbered (suc n) q)
                    ∙ ap (λ t. s ++ t) (sym text))
                  g),
          )
      | inr plain ↦
          let fine : Fine (s ++ (byte ∷ [])) n c' =
            subst
              (λ b.
                if b then Fine (s ++ placeholder n) (suc n) c' else Fine (s ++ (byte ∷ [])) n c')
              plain steps in
          let text = numbered-plain n byte q plain in
          let (d, f, g) =
            convert_bytes-Fine q (s ++ (byte ∷ [])) n c'
              (omega (arith, short, ap length text, length-append s (byte ∷ []))) fine in
          (
            d,
            rw e f,
            subst (λ k. Fine (s ++ numbered n (byte ∷ q)) k d) (rw plain refl)
                (subst (λ t. Fine t (n + marks q) d)
                  (append_assoc s (byte ∷ []) (numbered n q) ∙ ap (λ t. s ++ t) (sym text)) g),
          )
    ]

length-numbered : (n c : ℕ) (q : Str) → 1 ≤ length (numbered n (c ∷ q))
unfolding placeholder
length-numbered n c q = elim (Bool-cases (c == b'?')) [
  | inl mark ↦ rw (numbered-mark n c q mark) (omega arith)
  | inr plain ↦ rw (numbered-plain n c q plain) (omega arith)
]

-- A query that is not empty, and that with its placeholders numbered has fewer than 2^31 - 256
-- bytes, is converted, with at most two rounds behind the label for each byte, to exactly that
-- text; nothing is written outside the buffer, and vcnt is one more than the number of
-- placeholders.
pub convert-numbered :
    (c : ℕ) (q : Str)
    → length (numbered 1 (c ∷ q)) < longest
    → (r : Conversion) × (convert 2 (c ∷ q) ≡ some r)
      × ((r.buf ≡ numbered 1 (c ∷ q)) × ((r.vcnt ≡ 1 + marks (c ∷ q)) × (r.overrun ≡ false)))
unfolding convert
convert-numbered c q short =
    let begun : Fine [] 1 start = record {
      buf = refl;
      vcnt = refl;
      bound = omega arith;
      inside = refl;
      sized = inl (refl, (refl, refl));
    } in
    let (r, e, fine) = convert_bytes-Fine (c ∷ q) [] 1 start (omega arith) begun in
    (
      record r { overrun = r.overrun || leb r.buflen (length r.buf) },
      rw e refl,
      (fine.buf, (fine.vcnt, ended r fine)),
    )
  where
    ended :
        (r : Conversion)
        → Fine (numbered 1 (c ∷ q)) (1 + marks (c ∷ q)) r
        → (r.overrun || leb r.buflen (length r.buf)) ≡ false
    ended r fine = elim fine.sized [
      | inl (none_yet, (empty, again)) ↦ absurd (omega (arith, length-numbered 1 c q))
      | inr (room, rest) ↦ ground (arith, fine.inside, fine.buf, room)
    ]

-- On a connection, with prepared statements in use, pgsql_drv_prepare stores for such a query
-- exactly that text and the number of its placeholders, and writes nothing outside the buffer; a
-- query without any is prepared at once, and the function returns 1 when the server does not accept
-- it.
pub drv_prepare-numbered :
    (accepted : Bool) (c : ℕ) (q : Str)
    → length (numbered 1 (c ∷ q)) < longest
    → drv_prepare 2 true true accepted (c ∷ q)
      ≡ some (
          if marks (c ∷ q) == 0
          then (if accepted
              then record {
                status = 0;
                emulated = false;
                query = some (numbered 1 (c ∷ q));
                nparams = 0;
                prepared = true;
                overrun = false;
              }
              else record {
                status = 1;
                emulated = false;
                query = none;
                nparams = 0;
                prepared = false;
                overrun = false;
              })
          else record {
            status = 0;
            emulated = false;
            query = some (numbered 1 (c ∷ q));
            nparams = marks (c ∷ q);
            prepared = false;
            overrun = false;
          })
unfolding drv_prepare store
drv_prepare-numbered accepted c q short =
    let (r, e, (text, (count, inside))) = convert-numbered c q short in
    let params : r.vcnt - 1 ≡ marks (c ∷ q) = omega (arith, count) in
    rw (e, params, text, inside) refl

-- ===== src/Pgsql/Round.antt =====
-- The rounds behind the label `again` of pgsql_drv_prepare (src/drivers/pgsql/drv_pgsql.c).
use sysbench.Prelude.{
  ℕ, suc, ◌+◌, ◌-◌, ◌≤◌, ◌<◌, ◌≡◌, ◌∙◌, refl, ap, true, false, some, [], ◌∷◌, ◌++◌, arith, leb,
  ◌==◌, ◌||◌, if◌then◌else◌, inl, inr, Bool-cases, length, u32,
}
use sysbench.Prelude.Text.{Str}
use sysbench.Pgsql.{Conversion, make_room, placeholder, convert_byte}
use sysbench.Pgsql.Buffer.{
  longest, Fine, Ready, make_room-Ready, make_room-size, new_size, new_size-spare,
  length-placeholder, plain-Fine, number-Fine, lacks_room,
}

-- The cases of the loop's body.
module _ (rounds : ℕ) (c : Conversion) where
  convert_byte-plain :
      (byte : ℕ)
      → (byte == b'?') ≡ false
      → let r = make_room c in
        convert_byte (suc rounds) byte c
        ≡ some (record r {
          buf = r.buf ++ (byte ∷ []);
          overrun = r.overrun || leb r.buflen (length r.buf);
        })
  unfolding convert_byte
  convert_byte-plain byte plain = rw plain refl

  convert_byte-fits :
      (byte : ℕ)
      → (byte == b'?') ≡ true
      → let r = make_room c in
        lacks_room r ≡ false
        → convert_byte (suc rounds) byte c
          ≡ some (record r { buf = r.buf ++ placeholder r.vcnt; vcnt = u32 (r.vcnt + 1) })
  unfolding convert_byte lacks_room
  convert_byte-fits byte mark fits = rw (mark, fits) refl

  convert_byte-full :
      (byte : ℕ)
      → (byte == b'?') ≡ true
      → let r = make_room c in
        lacks_room r ≡ true
        → convert_byte (suc rounds) byte c
          ≡ convert_byte rounds byte (record r { need_realloc = true })
  unfolding convert_byte lacks_room
  convert_byte-full byte mark full = rw (mark, full) refl

-- The number fits in the second round.
retry-Fine :
    (s : Str) (n byte : ℕ) (r : Conversion)
    → (byte == b'?') ≡ true
    → length s < longest
    → Ready s n r
    → lacks_room r ≡ true
    → (c : Conversion) × (convert_byte 1 byte (record r { need_realloc = true }) ≡ some c)
      × Fine (s ++ placeholder n) (suc n) c
unfolding lacks_room
retry-Fine s n byte r mark short h full =
    let c : Conversion = record r { need_realloc = true } in
    let width = length-placeholder r.vcnt in
    let tight : r.buflen ≤ length s + 11 =
      lacking (r.buflen) (length r.buf) (length (placeholder r.vcnt)) (length s) full
        (ap length h.buf) width in
    let again : Fine s n c = record {
      buf = h.buf;
      vcnt = h.vcnt;
      bound = h.bound;
      inside = h.inside;
      sized = inr (omega (arith, h.room), (h.low, (h.high, inr tight)));
    } in
    let ready = make_room-Ready s n c short again in
    let (size, _) = make_room-size c in
    let same : new_size (length r.buf) r.buflen true ≡ new_size (length s) r.buflen true =
      ap (λ t. new_size (length t) r.buflen true) h.buf in
    let spare = new_size-spare (length s) r.buflen short h.low (omega (arith, h.room)) tight in
    let fits : lacks_room (make_room c) ≡ false =
      enough ((make_room c).buflen) (length (make_room c).buf)
        (length (placeholder (make_room c).vcnt)) (length s) (ap length ready.buf)
        (length-placeholder (make_room c).vcnt) (omega (arith, size, same, spare)) in
    (_, convert_byte-fits 0 c byte mark fits, number-Fine s n (make_room c) short ready fits)
  where
    lacking :
        (size at width j : ℕ) → leb (size - at) width ≡ true → at ≡ j → width ≤ 11 → size ≤ j + 11
    lacking size at width j full e w = ground arith

    enough :
        (size at width j : ℕ) → at ≡ j → width ≤ 11 → j + 12 ≤ size → leb (size - at) width ≡ false
    enough size at width j e w h = ground arith

-- The text that the loop's body adds, and the number after it.
abbrev pub Steps : Str → ℕ → ℕ → Conversion → Type 0
Steps s n byte c =
    if byte == b'?' then Fine (s ++ placeholder n) (suc n) c else Fine (s ++ (byte ∷ [])) n c

pub convert_byte-Steps :
    (s : Str) (n byte : ℕ) (c : Conversion)
    → length s < longest
    → Fine s n c
    → (c' : Conversion) × (convert_byte 2 byte c ≡ some c') × Steps s n byte c'
convert_byte-Steps s n byte c short h =
    let ready = make_room-Ready s n c short h in
    elim (Bool-cases (byte == b'?')) [
      | inr plain ↦
          (_, convert_byte-plain 1 c byte plain, rw plain (plain-Fine s n byte (make_room c) ready))
      | inl mark ↦ elim (Bool-cases (lacks_room (make_room c))) [
        | inr fits ↦ (
          _,
          convert_byte-fits 1 c byte mark fits,
          rw mark (number-Fine s n (make_room c) short ready fits),
        )
        | inl full ↦
            let (c', e, fine) = retry-Fine s n byte (make_room c) mark short ready full in
            (c', convert_byte-full 1 c byte mark full ∙ e, rw mark fine)
      ]
    ]

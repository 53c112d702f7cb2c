-- ===== src/Pgsql/Buffer.antt =====
-- The buffer of pgsql_drv_prepare (src/drivers/pgsql/drv_pgsql.c): its size and the text in it.
use sysbench.Prelude.{
  ℕ, zero, suc, ◌+◌, ◌-◌, ◌*◌, ◌/◌, ◌%◌, ◌^◌, ◌≤◌, ◌<◌, ◌≡◌, ◌⊎◌, ◌∙◌, refl, ap, ap₂, Bool, true,
  false, [], ◌∷◌, ◌++◌, arith, ltb, leb, ◌||◌, if◌then◌else◌, inl, inr, Bool-cases, length,
  length-append, u32,
}
use sysbench.Prelude.Text.{Str}
use sysbench.Compare.Placeholders.{decimal}
use sysbench.Pgsql.{Conversion, make_room, placeholder}

length-decimal : (digits n : ℕ) → length (decimal digits n) ≤ digits
unfolding decimal
length-decimal zero n = omega arith
length-decimal (suc digits) n = elim (Bool-cases (ltb n 10)) [
  | inl small ↦ rw (small, decimal) (omega arith)
  | inr large ↦
      rw (large, decimal)
        (omega (
          arith,
          length-decimal digits (n / 10),
          length-append (decimal digits (n / 10)) ((b'0' + n % 10) ∷ []),
        ))
]

pub length-placeholder : (n : ℕ) → length (placeholder n) ≤ 11
unfolding placeholder
length-placeholder n = omega (arith, length-decimal 10 n)

-- The longest text for which the size of the buffer stays an unsigned int.
abbrev pub longest : ℕ
longest = 2 ^ 31 - 256

-- A size of the buffer for a text of j bytes, and whether need_realloc is set: there is none yet,
-- or it has room for a NUL and is not much longer.
abbrev pub Sized : ℕ → ℕ → Bool → Type 0
Sized j buflen need =
    ((buflen ≡ 0) × ((j ≡ 0) × (need ≡ true)))
    ⊎ ((j + 1 ≤ buflen)
        × ((256 ≤ buflen) × ((buflen ≤ 2 * j + 256) × ((need ≡ false) ⊎ (buflen ≤ j + 11)))))

-- The size after the test behind the label.
abbrev pub new_size : ℕ → ℕ → Bool → ℕ
new_size j buflen need =
    if leb buflen (j + 1) || need then (if ltb 0 buflen then u32 (buflen * 2) else 256) else buflen

new_size-enough :
    (j buflen : ℕ) (need : Bool)
    → j < longest
    → Sized j buflen need
    → (j + 2 ≤ new_size j buflen need)
      × ((256 ≤ new_size j buflen need) × (new_size j buflen need ≤ 2 * j + 256))
new_size-enough j buflen need short (inl (e, (z, t))) =
    rw (e, z) (omega arith, (omega arith, omega arith))
new_size-enough j buflen true short (inr (room, (low, (high, inl f)))) = cc
new_size-enough j buflen false short (inr (room, (low, (high, w)))) =
    (ground arith, (ground arith, ground arith))
new_size-enough j buflen true short (inr (room, (low, (high, inr w)))) =
    (ground arith, (ground arith, ground arith))

-- A second round leaves room for a number.
pub new_size-spare :
    (j buflen : ℕ)
    → j < longest
    → 256 ≤ buflen
    → j + 1 ≤ buflen
    → buflen ≤ j + 11
    → j + 12 ≤ new_size j buflen true
new_size-spare j buflen short low room w = ground arith

-- The buffer holds a text.
pub record Fine (s : Str) (n : ℕ) (c : Conversion) : Type 0 where
  pub buf : c.buf ≡ s
  pub vcnt : c.vcnt ≡ n
  pub bound : n ≤ length s + 1
  pub inside : c.overrun ≡ false
  pub sized : Sized (length s) c.buflen c.need_realloc

-- The same after the test behind the label.
pub record Ready (s : Str) (n : ℕ) (c : Conversion) : Type 0 where
  pub buf : c.buf ≡ s
  pub vcnt : c.vcnt ≡ n
  pub bound : n ≤ length s + 1
  pub inside : c.overrun ≡ false
  pub room : length s + 2 ≤ c.buflen
  pub low : 256 ≤ c.buflen
  pub high : c.buflen ≤ 2 * length s + 256
  pub idle : c.need_realloc ≡ false

pub make_room-size :
    (c : Conversion)
    → ((make_room c).buflen ≡ new_size (length c.buf) c.buflen c.need_realloc)
      × (((make_room c).need_realloc ≡ false)
          × (((make_room c).buf ≡ c.buf)
              × (((make_room c).vcnt ≡ c.vcnt) × ((make_room c).overrun ≡ c.overrun))))
unfolding make_room
make_room-size c = elim (Bool-cases (leb c.buflen (length c.buf + 1) || c.need_realloc)) [
  | inl grows ↦ rw grows (refl, (refl, (refl, (refl, refl))))
  | inr stays ↦ rw stays (refl, (ground (arith, stays), (refl, (refl, refl))))
]

pub make_room-Ready :
    (s : Str) (n : ℕ) (c : Conversion) → length s < longest → Fine s n c → Ready s n (make_room c)
make_room-Ready s n c short h =
    let (size, (idle, (buf, (vcnt, inside)))) = make_room-size c in
    let same : new_size (length c.buf) c.buflen c.need_realloc
        ≡ new_size (length s) c.buflen c.need_realloc =
      rw h.buf refl in
    let (room, (low, high)) = new_size-enough (length s) c.buflen c.need_realloc short h.sized in
    record {
      buf = buf ∙ h.buf;
      vcnt = vcnt ∙ h.vcnt;
      bound = h.bound;
      inside = inside ∙ h.inside;
      room = omega (arith, size, same, room);
      low = omega (arith, size, same, low);
      high = omega (arith, size, same, high);
      idle = idle;
    }

-- A byte or a number that has room is added.
pub plain-Fine :
    (s : Str) (n byte : ℕ) (r : Conversion)
    → Ready s n r
    → Fine (s ++ (byte ∷ [])) n (record r {
      buf = r.buf ++ (byte ∷ []);
      overrun = r.overrun || leb r.buflen (length r.buf);
    })
plain-Fine s n byte r h =
    let longer = length-append s (byte ∷ []) in
    let inside : leb r.buflen (length r.buf) ≡ false = ground (arith, h.buf, h.room) in
    record {
      buf = ap (λ t. t ++ (byte ∷ [])) h.buf;
      vcnt = h.vcnt;
      bound = omega (arith, h.bound, longer);
      inside = rw (h.inside, inside) refl;
      sized =
          inr (omega (arith, h.room, longer), (h.low, (omega (arith, h.high, longer), inl h.idle)));
    }

-- snprintf cuts the number off.
unfoldable pub lacks_room : Conversion → Bool
lacks_room r = leb (r.buflen - length r.buf) (length (placeholder r.vcnt))

pub number-Fine :
    (s : Str) (n : ℕ) (r : Conversion)
    → length s < longest
    → Ready s n r
    → lacks_room r ≡ false
    → Fine
        (s ++ placeholder n)
        (suc n)
        (record r { buf = r.buf ++ placeholder r.vcnt; vcnt = u32 (r.vcnt + 1) })
unfolding lacks_room placeholder
number-Fine s n r short h fits =
    let longer = length-append s (placeholder n) in
    let room : length s + length (placeholder n) + 1 ≤ r.buflen =
      ground (arith, fits, h.buf, h.vcnt) in
    record {
      buf = ap₂ (λ t k. t ++ placeholder k) h.buf h.vcnt;
      vcnt = omega (arith, h.vcnt, h.bound);
      bound = omega (arith, h.bound, longer);
      inside = h.inside;
      sized =
          inr (omega (arith, room, longer), (h.low, (omega (arith, h.high, longer), inl h.idle)));
    }

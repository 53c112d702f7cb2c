-- ===== src/Random.antt =====
-- src/sb_rand.c, src/sb_rand.h and src/xoroshiro128plus.h: the generator of a thread, the uniform
-- distribution, random strings and the sequence of unique numbers. A double between 0 and 2^33 is
-- the number of its 2^52nd parts.
pub mod Uniform
pub mod Strings
mod Tests
use Prim.Native.Nat.{bit_or, bit_xor}
use sysbench.Prelude.{
  ℕ, zero, suc, ◌+◌, ◌-◌, ◌*◌, ◌/◌, ◌%◌, ◌^◌, Bool, List, [], ◌∷◌, if◌then◌else◌, ◌==◌, ltb, leb,
  u32, u64, sub32, map,
}
use sysbench.Prelude.Round.{round}
use sysbench.Prelude.Text.{Str}

-- sb_rng_state_t: two words
pub record Rng : Type 0 where
  pub s0 : ℕ
  pub s1 : ℕ

xoroshiro_rotl : ℕ → ℕ → ℕ
xoroshiro_rotl x k = bit_or (u64 (x * 2 ^ k)) (x / 2 ^ (64 - k))

-- The result, a word, and the next state.
unfoldable pub xoroshiro_next : Rng → ℕ × Rng
unfolding xoroshiro_rotl
xoroshiro_next r =
    let s1 = bit_xor r.s1 r.s0 in
    (
      u64 (r.s0 + r.s1),
      record {
        s0 = bit_xor (bit_xor (xoroshiro_rotl r.s0 55) s1) (u64 (s1 * 2 ^ 14));
        s1 = xoroshiro_rotl s1 36;
      },
    )

-- sb_rand_uniform_double, in 2^52nd parts: a double from 1 on whose digits are x >> 12, less 1
unfoldable pub uniform_double : Rng → ℕ × Rng
unfolding xoroshiro_next
uniform_double r = let (x, r') = xoroshiro_next r in (x / 2 ^ 12, r')

-- b - a + 1, on uint32_t
unfoldable pub span : ℕ → ℕ → ℕ
span a b = u32 (sub32 b a + 1)

-- a + sb_rand_uniform_double() * (b - a + 1), in 2^52nd parts: the product and the sum are rounded.
unfoldable pub uniform_sum : ℕ → ℕ → ℕ → ℕ
unfolding span
uniform_sum a b x = round (a * 2 ^ 52 + round (x * span a b))

-- sb_rand_uniform: the conversion to uint32_t drops the fraction.
unfoldable pub uniform : Rng → ℕ → ℕ → ℕ × Rng
unfolding uniform_double uniform_sum
uniform r a b = let (x, r') = uniform_double r in (u32 (uniform_sum a b x / 2 ^ 52), r')

-- The byte that sb_rand_str writes for one of the format.
unfoldable pub rand_byte : Rng → ℕ → ℕ × Rng
unfolding uniform
rand_byte r c =
    if c == b'#' then uniform r b'0' b'9' else if c == b'@' then uniform r b'a' b'z' else (c, r)

-- sb_rand_str: the bytes that it writes to the buffer for the format.
unfoldable pub rand_str : Rng → Str → Str × Rng
unfolding rand_byte
rand_str r [] = ([], r)
rand_str r (c ∷ fmt) =
    let (byte, r') = rand_byte r c in let (buf, r'') = rand_str r' fmt in (byte ∷ buf, r'')

-- for (i = 0; i < num_chars; i++) buf[i] = sb_rand_uniform('0', 'z')
unfoldable pub fill : Rng → ℕ → Str × Rng
unfolding uniform
fill r zero = ([], r)
fill r (suc n) =
    let (byte, r') = uniform r b'0' b'z' in let (buf, r'') = fill r' n in (byte ∷ buf, r'')

-- sb_rand_varstr: the bytes that it writes; it returns their number.
unfoldable pub rand_varstr : Rng → ℕ → ℕ → Str × Rng
unfolding uniform fill
rand_varstr r min_len max_len =
    if max_len == 0
    then ([], r)
    else (let (num_chars, r') = uniform r (if ltb max_len min_len then 1 else min_len) max_len in
        fill r' num_chars)

-- rand_unique_permute, and its prime
abbrev pub prime : ℕ
prime = 4294967291

unfoldable pub unique_permute : ℕ → ℕ
unique_permute x =
    if leb prime x
    then x
    else if leb x (prime / 2)
    then (x * x) % prime
    else u32 (prime - (x * x) % prime)

-- rand_unique_index and rand_unique_offset
pub record Unique : Type 0 where
  pub index : ℕ
  pub offset : ℕ

-- rand_unique_seed
unfoldable pub unique_seed : ℕ → ℕ → Unique
unfolding unique_permute
unique_seed index offset = record {
  index = unique_permute (u32 (unique_permute index + 0x682f0161));
  offset = unique_permute (u32 (unique_permute offset + 0x46790905));
}

-- sb_rand_unique: ck_pr_faa_32 adds 1 to the index and returns what it was.
unfoldable pub rand_unique : Unique → ℕ × Unique
unfolding unique_permute
rand_unique u = (
  unique_permute (bit_xor (u32 (unique_permute u.index + u.offset)) 0x5bf03635),
  record u { index = u32 (u.index + 1) },
)

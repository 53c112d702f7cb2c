-- ===== src/Random/Strings.antt =====
-- src/sb_rand.c: the random strings.
use sysbench.Prelude.{
  ℕ, zero, suc, ◌≤◌, ◌<◌, ◌≡◌, refl, ap, true, false, Bool, [], ◌∷◌, length, arith, if◌then◌else◌,
  ◌==◌, ltb, u32_mod,
}
use sysbench.Prelude.Text.{Str}
use sysbench.Random.{Rng, uniform, rand_byte, rand_str, fill, rand_varstr}
use sysbench.Random.Uniform.{IsIn, uniform-IsIn}

-- What a byte of the buffer may be for a byte of the format.
abbrev pub Fits : ℕ → ℕ → Type 0
Fits c byte =
    if c == b'#'
    then IsIn b'0' (suc b'9') byte
    else if c == b'@'
    then IsIn b'a' (suc b'z') byte
    else (byte ≡ c)

abbrev pub AllFit : Str → Str → Type 0
AllFit [] [] = Unit {0}
AllFit [] (byte ∷ buf) = ⊥
AllFit (c ∷ fmt) [] = ⊥
AllFit (c ∷ fmt) (byte ∷ buf) = Fits c byte × AllFit fmt buf

rand_byte-Fits : (r : Rng) (c : ℕ) → Fits c (rand_byte r c).0
unfolding rand_byte
rand_byte-Fits r c = choose (c == b'#') (c == b'@')
  where
    choose :
        (hash at : Bool)
        → if hash
          then IsIn b'0'
              (suc b'9')
              (if hash then uniform r b'0' b'9' else if at then uniform r b'a' b'z' else (c, r)).0
          else if at
          then IsIn b'a'
              (suc b'z')
              (if hash then uniform r b'0' b'9' else if at then uniform r b'a' b'z' else (c, r)).0
          else ((if hash then uniform r b'0' b'9' else if at then uniform r b'a' b'z' else (c, r)).0
              ≡ c)
    choose true at = uniform-IsIn r b'0' b'9' (omega arith) (omega arith)
    choose false true = uniform-IsIn r b'a' b'z' (omega arith) (omega arith)
    choose false false = refl

-- sb_rand_str writes one byte for each byte of the format: for '#' one from '0' to ':', for '@' one
-- from 'a' to '{', and for any other byte that byte.
pub rand_str-AllFit : (r : Rng) (fmt : Str) → AllFit fmt (rand_str r fmt).0
unfolding rand_str
rand_str-AllFit r [] = tt
rand_str-AllFit r (c ∷ fmt) = (rand_byte-Fits r c, rand_str-AllFit (rand_byte r c).1 fmt)

abbrev pub AllIn : ℕ → ℕ → Str → Type 0
AllIn low high [] = Unit {0}
AllIn low high (byte ∷ buf) = IsIn low high byte × AllIn low high buf

fill-AllIn : (r : Rng) (n : ℕ) → (length (fill r n).0 ≡ n) × AllIn b'0' (suc b'z') (fill r n).0
unfolding fill
fill-AllIn r zero = (refl, tt)
fill-AllIn r (suc n) =
    let (long, all) = fill-AllIn (uniform r b'0' b'z').1 n in
    (ap suc long, (uniform-IsIn r b'0' b'z' (omega arith) (omega arith), all))

-- For a max_len above 0 that is below 2^32 - 1 and a min_len that is not above it, sb_rand_varstr
-- writes from min_len to max_len + 1 bytes, each from '0' to '{'.
pub rand_varstr-IsIn :
    (r : Rng) (min_len max_len : ℕ)
    → 0 < max_len
    → min_len ≤ max_len
    → suc max_len < u32_mod
    → let buf = (rand_varstr r min_len max_len).0 in
      IsIn min_len (suc max_len) (length buf) × AllIn b'0' (suc b'z') buf
unfolding rand_varstr
rand_varstr-IsIn r min_len max_len some_room ordered word =
    let nonzero : (max_len == 0) ≡ false = ground arith in
    let kept : ltb max_len min_len ≡ false = ground arith in
    let (long, all) = fill-AllIn (uniform r min_len max_len).1 (uniform r min_len max_len).0 in
    rw (nonzero, kept) (rw long (uniform-IsIn r min_len max_len ordered word), all)

-- ===== src/Compare/Placeholders/ReadBack.antt =====
-- Reading the values of string parameters back from the text that replace_placeholders
-- (src/drivers/compare/drv_compare.c) makes.
use mathlib.Core.List.{append_assoc}
use sysbench.Prelude.{
  ℕ, zero, suc, ◌≡◌, ◌∙◌, refl, true, false, Option, none, some, List, [], ◌∷◌, ◌++◌, ◌==◌, ◌||◌,
  ◌>>=◌, length, take, arith, inl, inr, Bool-cases, if◌then◌else◌,
}
use sysbench.Prelude.Int.{pos}
use sysbench.Prelude.Text.{Str}
use sysbench.Compare.Placeholders.{
  Param, param_string, escape, written, fill, Filled, replace_placeholders,
}
use sysbench.Compare.Placeholders.Room.{marks}

-- What follows an opening quote: the string, with each byte behind a backslash taken as it is, and
-- the text behind the closing quote.
abbrev pub unquote : Str → Option (Str × Str)
unquote [] = none
unquote (c ∷ []) = if c == b'\'' then some ([], []) else none
unquote (c ∷ d ∷ s) =
    let escaped = unquote s in
    let plain = unquote (d ∷ s) in
    if c == b'\''
    then some ([], d ∷ s)
    else if c == b'\\'
    then escaped >>= (λ r. some (d ∷ r.0, r.1))
    else plain >>= (λ r. some (c ∷ r.0, r.1))

abbrev pub quoted : Str → Option (Str × Str)
quoted [] = none
quoted (c ∷ s) = if c == b'\'' then unquote s else none

-- The quoted strings that stand in a text where a statement has its first '?', at most as many as
-- the number says; none when the texts differ elsewhere.
abbrev pub read_back : Str → ℕ → Str → Option (List Str)
read_back [] n [] = some []
read_back [] n (d ∷ t) = none
read_back (c ∷ q) zero [] = none
read_back (c ∷ q) zero (d ∷ t) = if c == d then read_back q zero t else none
read_back (c ∷ q) (suc n) t = elim (c == b'?') [
  | true ↦ quoted t >>= (λ r. read_back q n r.1 >>= (λ values. some (r.0 ∷ values)))
  | false ↦ elim t [ [] ↦ none | d ∷ t' ↦ if c == d then read_back q (suc n) t' else none ]
]

unquote-plain :
    (c : ℕ) (t : Str)
    → (c == b'\'') ≡ false
    → (c == b'\\') ≡ false
    → unquote (c ∷ t) ≡ (unquote t >>= (λ r. some (c ∷ r.0, r.1)))
unquote-plain c [] q b = rw (q, unquote) refl
unquote-plain c (d ∷ t) q b = rw (q, b, unquote) refl

unquote-quote : (rest : Str) → unquote (b'\'' ∷ rest) ≡ some ([], rest)
unquote-quote [] = refl
unquote-quote (d ∷ rest) = refl

-- A string that was escaped is read as it was, whatever follows its closing quote.
pub unquote-escape : (s rest : Str) → unquote (escape s ++ (b'\'' ∷ rest)) ≡ some (s, rest)
unfolding escape
unquote-escape [] rest = unquote-quote rest
unquote-escape (c ∷ s) rest = elim (Bool-cases (c == b'\'' || c == b'\\')) [
  | inl special ↦ rw (special, unquote-escape s rest) refl
  | inr plain ↦
      let no_quote : (c == b'\'') ≡ false = ground (arith, plain) in
      let no_backslash : (c == b'\\') ≡ false = ground (arith, plain) in
      rw
        (
          plain,
          unquote-plain c (escape s ++ (b'\'' ∷ rest)) no_quote no_backslash,
          unquote-escape s rest,
        )
        refl
]

-- The parameters that strings make.
abbrev pub strings : List Str → List Param
strings [] = []
strings (s ∷ texts) = param_string (some s) ∷ strings texts

quoted-written : (s rest : Str) → quoted (written (param_string (some s)) ++ rest) ≡ some (s, rest)
unfolding written
quoted-written s rest = rw (append_assoc (escape s) (b'\'' ∷ []) rest) (unquote-escape s rest)

same : (c : ℕ) → (c == c) ≡ true
same c = ground arith

take-nil : (n : ℕ) → take {A = Str} n [] ≡ []
take-nil zero = refl
take-nil (suc n) = refl

read_back-mark :
    (c : ℕ) (q : Str) (n : ℕ) (t : Str)
    → (c == b'?') ≡ true
    → read_back (c ∷ q) (suc n) t
      ≡ (quoted t >>= (λ r. read_back q n r.1 >>= (λ values. some (r.0 ∷ values))))
read_back-mark c q n t mark = rw (mark, read_back) refl

read_back-plain :
    (c : ℕ) (q : Str) (n : ℕ) (t : Str)
    → (c == b'?') ≡ false
    → read_back (c ∷ q) (suc n) (c ∷ t) ≡ read_back q (suc n) t
read_back-plain c q n t plain = rw (plain, read_back, same c) refl

read_back-fill :
    (q : Str) (texts : List Str)
    → read_back q (length texts) (fill q (strings texts)) ≡ some (take (marks q) texts)
unfolding fill
read_back-fill [] texts = refl
read_back-fill (c ∷ q) [] =
    rw (same c, read_back-fill q [], take-nil (marks q), take-nil (marks (c ∷ q))) refl
read_back-fill (c ∷ q) (s ∷ texts) = elim (Bool-cases (c == b'?')) [
  | inl mark ↦
      rw (mark, fill)
        (read_back-mark c q (length texts)
            (written (param_string (some s)) ++ fill q (strings texts)) mark
          ∙ rw (quoted-written s (fill q (strings texts)), read_back-fill q texts) refl)
  | inr plain ↦
      rw (plain, fill)
        (read_back-plain c q (length texts) (fill q (strings (s ∷ texts))) plain
          ∙ read_back-fill q (s ∷ texts))
]

-- When all the parameters are strings with a buffer and a length, as many as the count says, and
-- the buffer is allocated, the text that replace_placeholders returns can be read back without
-- ambiguity: next to the statement it shows the strings that were put in place of its '?'s, as many
-- of them as there are both '?'s and parameters, whatever bytes they have.
pub replace_placeholders-read_back :
    (q : Str) (texts : List Str)
    → (f : Filled) × (replace_placeholders true (some q) (some (strings texts)) (pos (length texts))
        ≡ some f)
      × (read_back q (length texts) f.text ≡ some (take (marks q) texts))
unfolding replace_placeholders
replace_placeholders-read_back q texts = (_, refl, rw (take-strings texts) (read_back-fill q texts))
  where
    take-strings : (xs : List Str) → take (length xs) (strings xs) ≡ strings xs
    take-strings [] = refl
    take-strings (x ∷ xs) = rw (take-strings xs) refl

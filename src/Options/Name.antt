-- ===== src/Options/Name.antt =====
-- src/sb_options.c: option names, in which a dash and an underscore are one character.
use sysbench.Prelude.{
  ℕ, ◌≡◌, ◌≢◌, ◌↔◌, refl, Bool, true, false, ◌&&◌, ◌||◌, [], ◌∷◌, ◌++◌, arith, ◌==◌, if◌then◌else◌,
  inl, inr, Bool-cases,
}
use sysbench.Prelude.Int.{ℤ, pos, negsuc, sub_ℕ}
use sysbench.Prelude.Text.{Str, IsCString}

abbrev pub is_dash : ℕ → Bool
is_dash c = c == b'-' || c == b'_'

-- convert_dashes, on a string of its own
unfoldable pub convert_dashes : Str → Str
convert_dashes [] = []
convert_dashes (c ∷ s) = (if c == b'-' then b'_' else c) ∷ convert_dashes s

-- opt_name_cmp: the difference of the first two characters that are neither equal nor both dashes.
-- The NUL of the shorter name is 0.
unfoldable pub opt_name_cmp : Str → Str → ℤ
opt_name_cmp [] [] = pos 0
opt_name_cmp [] (b ∷ s2) = sub_ℕ 0 b
opt_name_cmp (a ∷ s1) [] = sub_ℕ a 0
opt_name_cmp (a ∷ s1) (b ∷ s2) =
    let rest = opt_name_cmp s1 s2 in if a == b || (is_dash a && is_dash b) then rest else sub_ℕ a b

-- The test `!opt_name_cmp(s1, s2)`.
unfoldable pub same_name : Str → Str → Bool
unfolding opt_name_cmp
same_name s1 s2 = elim (opt_name_cmp s1 s2) [ pos n ↦ n == 0 | negsuc n ↦ false ]

cons_eq : {a b : ℕ} {s t : Str} → a ≡ b → s ≡ t → ◌≡◌ {A = Str} (a ∷ s) (b ∷ t)
cons_eq p q = cc

-- Two option names count as equal exactly when they have the same form with every dash written as
-- an underscore, in which add_option keeps them.
pub same_name_iff :
    (s1 s2 : Str)
    → IsCString s1
    → IsCString s2
    → (same_name s1 s2 ≡ true) ↔ (convert_dashes s1 ≡ convert_dashes s2)
unfolding same_name opt_name_cmp convert_dashes
same_name_iff [] [] h1 h2 = (λ _. refl, λ _. refl)
same_name_iff [] (b ∷ s2) h1 h2 = (λ h. ground arith, λ h. cc)
same_name_iff (a ∷ s1) [] h1 h2 = (λ h. ground arith, λ h. cc)
same_name_iff (a ∷ s1) (b ∷ s2) h1 h2 =
    let ih = same_name_iff s1 s2 h1.1 h2.1 in (λ h. ground (arith, ih.0), λ h. ground (arith, ih.1))

pub convert_dashes-convert_dashes : (s : Str) → convert_dashes (convert_dashes s) ≡ convert_dashes s
unfolding convert_dashes
convert_dashes-convert_dashes [] = refl
convert_dashes-convert_dashes (c ∷ s) = ground (arith, convert_dashes-convert_dashes s)

pub convert_dashes-IsCString : (s : Str) → IsCString s → IsCString (convert_dashes s)
unfolding convert_dashes
convert_dashes-IsCString [] h = tt
convert_dashes-IsCString (c ∷ s) h = (ground arith, convert_dashes-IsCString s h.1)

-- A blank after a name makes it another name.
pub convert_dashes-blank-ne :
    (s : Str) → convert_dashes (convert_dashes (s ++ (b' ' ∷ []))) ≢ convert_dashes s
unfolding convert_dashes
convert_dashes-blank-ne [] e = cc
convert_dashes-blank-ne (c ∷ s) e = convert_dashes-blank-ne s (ground arith)

pub same_name-blank :
    (s : Str)
    → IsCString s
    → IsCString (s ++ (b' ' ∷ []))
    → same_name (convert_dashes (s ++ (b' ' ∷ []))) s ≡ false
same_name-blank s h h' = elim (Bool-cases (same_name (convert_dashes (s ++ (b' ' ∷ []))) s)) [
  | inl same ↦ absurd (
      convert_dashes-blank-ne s (
        (same_name_iff (convert_dashes (s ++ (b' ' ∷ []))) s
            (convert_dashes-IsCString (s ++ (b' ' ∷ [])) h') h).0
          same))
  | inr other ↦ other
]

pub IsCString-blank : (s : Str) → IsCString s → IsCString (s ++ (b' ' ∷ []))
IsCString-blank [] h = (ground arith, tt)
IsCString-blank (c ∷ s) h = (h.0, IsCString-blank s h.1)

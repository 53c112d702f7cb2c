-- ===== src/Compare/Execute/Text.antt =====
-- The text that mysql_drv_execute (src/drivers/compare/drv_compare.c) makes of a result, and when
-- it has room in an element of rs_buf.
use mathlib.Core.List.{append-nil, append_assoc}
use sysbench.Prelude.{
  ℕ, suc, ◌+◌, ◌≤◌, ◌≡◌, refl, sym, subst, List, [], ◌∷◌, ◌++◌, arith, length, length-append,
}
use sysbench.Prelude.Text.{Str, codes}
use sysbench.Compare.Table.{Buf, print}
use sysbench.Compare.Table.Exact.{Holds, print-Holds}
use sysbench.Compare.Execute.{Value, Sheet, value_text, row_head, print_values, print_sheet_rows}

abbrev pub values_text : List Str → List Value → Str
values_text (name ∷ names) (v ∷ values) = value_text name v ++ values_text names values
values_text _ _ = []

abbrev pub line_text : List Str → ℕ → List Value → Str
line_text names n r = row_head n ++ (values_text names r ++ codes "\n")

abbrev pub rows_from : List Str → ℕ → List (List Value) → Str
rows_from names n [] = []
rows_from names n (r ∷ rows) = line_text names (suc n) r ++ rows_from names (suc n) rows

-- The text of a result, without a buffer.
abbrev pub sheet_text : Sheet → Str
sheet_text s = rows_from s.names 0 s.rows

step-Holds :
    (t : Str) (left : ℕ) (s : Str) (b : Buf)
    → 1 ≤ left
    → Holds (length t + left) s b
    → length s + (length t + left) ≤ 4096
    → Holds left (s ++ t) (print t b)
step-Holds t left s b some_left h fits =
    print-Holds t (length t + left) left s b h (omega (arith, length-append s t)) (omega arith)
      some_left

weaken : {room left : ℕ} {s : Str} {b : Buf} → room ≡ left → Holds room s b → Holds left s b
weaken {s = s} {b = b} e h = subst (λ n. Holds n s b) e h

print_values-Holds :
    (names : List Str) (values : List Value) (left : ℕ) (s : Str) (b : Buf)
    → 1 ≤ left
    → Holds (length (values_text names values) + left) s b
    → length s + (length (values_text names values) + left) ≤ 4096
    → Holds left (s ++ values_text names values) (print_values names values b)
unfolding print_values
print_values-Holds [] values left s b some_left h fits =
    subst (λ x. Holds left x b) (sym (append-nil s)) (weaken (omega arith) h)
print_values-Holds (name ∷ names) [] left s b some_left h fits =
    subst (λ x. Holds left x b) (sym (append-nil s)) (weaken (omega arith) h)
print_values-Holds (name ∷ names) (v ∷ values) left s b some_left h fits =
    let t = value_text name v in
    let u = values_text names values in
    subst (λ x. Holds left x (print_values names values (print t b))) (append_assoc s t u)
      (print_values-Holds names values left (s ++ t) (print t b) some_left
        (step-Holds t (length u + left) s b (omega arith)
          (weaken (omega (arith, length-append t u)) h) (omega (arith, length-append t u, fits)))
        (omega (arith, length-append t u, length-append s t, fits)))

pub print_sheet_rows-Holds :
    (names : List Str) (n : ℕ) (rows : List (List Value)) (left : ℕ) (s : Str) (b : Buf)
    → 1 ≤ left
    → Holds (length (rows_from names n rows) + left) s b
    → length s + (length (rows_from names n rows) + left) ≤ 4096
    → Holds left (s ++ rows_from names n rows) (print_sheet_rows names n rows b)
unfolding print_sheet_rows
print_sheet_rows-Holds names n [] left s b some_left h fits =
    subst (λ x. Holds left x b) (sym (append-nil s)) (weaken (omega arith) h)
print_sheet_rows-Holds names n (r ∷ rows) left s b some_left h fits =
    let head = row_head (suc n) in
    let line = values_text names r in
    let rest = rows_from names (suc n) rows in
    let end = codes "\n" in
    let total : length (line_text names (suc n) r ++ rest)
        ≡ length head + (length line + (1 + length rest)) =
      omega (
        arith,
        length-append (line_text names (suc n) r) rest,
        length-append head (line ++ end),
        length-append line end,
      ) in
    let b1 = print head b in
    let b2 = print_values names r b1 in
    let h1 =
      step-Holds head (length line + (1 + (length rest + left))) s b (omega arith)
        (weaken (omega (arith, total)) h) (omega (arith, total, fits)) in
    let s1 = length-append s head in
    let s2 = length-append (s ++ head) line in
    let s3 = length-append ((s ++ head) ++ line) end in
    let h2 =
      print_values-Holds names r (1 + (length rest + left)) (s ++ head) b1 (omega arith) h1
        (omega (arith, total, fits, s1)) in
    let h3 =
      step-Holds end (length rest + left) ((s ++ head) ++ line) b2 (omega arith) h2
        (omega (arith, total, fits, s1, s2)) in
    subst (λ x. Holds left x (print_sheet_rows names (suc n) rows (print end b2)))
      (regroup s head line end rest)
      (print_sheet_rows-Holds names (suc n) rows left (((s ++ head) ++ line) ++ end) (print end b2)
        some_left h3 (omega (arith, total, fits, s1, s2, s3)))
  where
    regroup : (s a b c d : Str) → (((s ++ a) ++ b) ++ c) ++ d ≡ s ++ ((a ++ (b ++ c)) ++ d)
    regroup s a b c d =
        rw (append_assoc (s ++ a) b c, append_assoc s a (b ++ c), append_assoc s (a ++ (b ++ c)) d)
          refl

-- ===== src/Command/Insertion.antt =====
-- A sort that is what src/sysbench.c relies on qsort of libc to be.
use mathlib.Core.List.{
  Mem, Perm, Pairwise, mem-cons_self, mem-cons_of_mem, forall_mem-cons, Pairwise-singleton,
}
use mathlib.Core.List.Perm
use native.Mathlib.Bridge.{le_prop}
use sysbench.Prelude.{ℕ, inl, inr, List, [], ◌∷◌, arith, if◌then◌else◌, Bool-cases}
use sysbench.Prelude.Int.{ℤ, pos, ◌≤ℤ◌, ltb_ℤ}
use sysbench.Command.Init.{Qsort}
use sysbench.Command.Init.Sorting.{Orders, IsQsort}

-- An insertion sort that calls a comparison.
insert_by : (ℕ → ℕ → ℤ) → ℕ → List ℕ → List ℕ
insert_by cmp x [] = x ∷ []
insert_by cmp x (y ∷ ys) =
    let rest = insert_by cmp x ys in if ltb_ℤ (pos 0) (cmp x y) then y ∷ rest else x ∷ y ∷ ys

unfoldable pub sort_by : Qsort
unfolding insert_by
sort_by cmp [] = []
sort_by cmp (x ∷ xs) = insert_by cmp x (sort_by cmp xs)

insert_by-perm : (cmp : ℕ → ℕ → ℤ) (x : ℕ) (ys : List ℕ) → Perm (insert_by cmp x ys) (x ∷ ys)
unfolding insert_by
insert_by-perm cmp x [] = Perm.rfl
insert_by-perm cmp x (y ∷ ys) = elim (Bool-cases (ltb_ℤ (pos 0) (cmp x y))) [
  | inl above ↦ rw above (Perm.trans (Perm.cons y (insert_by-perm cmp x ys)) (Perm.swap x y ys))
  | inr below ↦ rw below Perm.rfl
]

sort_by-perm : (cmp : ℕ → ℕ → ℤ) (xs : List ℕ) → Perm (sort_by cmp xs) xs
unfolding sort_by
sort_by-perm cmp [] = Perm.rfl
sort_by-perm cmp (x ∷ xs) =
    Perm.trans (insert_by-perm cmp x (sort_by cmp xs)) (Perm.cons x (sort_by-perm cmp xs))

Orders-subset :
    (cmp : ℕ → ℕ → ℤ) (xs ys : List ℕ)
    → ((a : ℕ) → Mem a ys → Mem a xs)
    → Orders cmp xs
    → Orders cmp ys
Orders-subset cmp xs ys sub o = record {
  total = λ a b m n. o.total a b (sub a m) (sub b n);
  trans = λ a b c m n k ab bc. o.trans a b c (sub a m) (sub b n) (sub c k) ab bc;
}

below_all :
    (cmp : ℕ → ℕ → ℤ) (x y : ℕ) (ys : List ℕ)
    → cmp x y ≤ℤ pos 0
    → ((a : ℕ) → Mem a ys → cmp x a ≤ℤ pos 0)
    → (a : ℕ) → Mem a (y ∷ ys)
    → cmp x a ≤ℤ pos 0
below_all cmp x y ys h k = (forall_mem-cons (λ a. le_prop)).1 (h, k)

insert_by-Pairwise :
    (cmp : ℕ → ℕ → ℤ) (x : ℕ) (ys : List ℕ)
    → Orders cmp (x ∷ ys)
    → Pairwise (λ a b. cmp a b ≤ℤ pos 0) ys
    → Pairwise (λ a b. cmp a b ≤ℤ pos 0) (insert_by cmp x ys)
unfolding insert_by
insert_by-Pairwise cmp x [] o Pairwise.nil = Pairwise-singleton _ x
insert_by-Pairwise cmp x (y ∷ ys) o (Pairwise.cons below p) =
    let at_x = mem-cons_self in
    let at_y = mem-cons_of_mem x mem-cons_self in
    let deep = λ (a : ℕ) (m : Mem a ys). mem-cons_of_mem x (mem-cons_of_mem y m) in
    elim (Bool-cases (ltb_ℤ (pos 0) (cmp x y))) [
      | inl above ↦
          let lower : cmp y x ≤ℤ pos 0 = elim (o.total x y at_x at_y) [
            | inl h ↦ ground (arith)
            | inr h ↦ h
          ] in
          rw above (
            Pairwise.cons
              (λ a m.
                below_all cmp y x ys lower below a ((Perm.mem_iff (insert_by-perm cmp x ys)).0 m))
              (insert_by-Pairwise cmp x ys
                (Orders-subset cmp (x ∷ y ∷ ys) (x ∷ ys)
                  (λ a m. (Perm.mem_iff (Perm.swap x y ys)).0 (mem-cons_of_mem y m)) o)
                p))
      | inr not_above ↦
          let first : cmp x y ≤ℤ pos 0 = ground arith in
          rw not_above (
            Pairwise.cons
              (below_all cmp x y ys first
                (λ a m. o.trans x y a at_x at_y (deep a m) first (below a m)))
              (Pairwise.cons below p))
    ]

sort_by-Pairwise :
    (cmp : ℕ → ℕ → ℤ) (xs : List ℕ)
    → Orders cmp xs
    → Pairwise (λ a b. cmp a b ≤ℤ pos 0) (sort_by cmp xs)
unfolding sort_by
sort_by-Pairwise cmp [] o = Pairwise.nil
sort_by-Pairwise cmp (x ∷ xs) o =
    insert_by-Pairwise cmp x (sort_by cmp xs)
      (Orders-subset cmp (x ∷ xs) (x ∷ sort_by cmp xs)
        (λ a m. (Perm.mem_iff (Perm.cons x (sort_by-perm cmp xs))).0 m) o)
      (sort_by-Pairwise cmp xs (Orders-subset cmp (x ∷ xs) xs (λ a m. mem-cons_of_mem x m) o))

pub sort_by-IsQsort : IsQsort sort_by
sort_by-IsQsort = record { perm = sort_by-perm; ordered = sort_by-Pairwise }

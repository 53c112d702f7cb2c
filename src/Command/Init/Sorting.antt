-- ===== src/Command/Init/Sorting.antt =====
-- src/sysbench.c: the checkpoints that init leaves, sorted by qsort with checkpoint_cmp.
use mathlib.Core.Option
use mathlib.Core.List.{
  Mem, Perm, Pairwise, mem-cons_self, mem-cons_of_mem, not-mem-nil, forall_mem-cons,
}
use mathlib.Core.List.Perm
use native.Mathlib.Bridge.{le_prop}
use sysbench.Prelude.{
  ℕ, suc, ◌+◌, ◌≤◌, ◌<◌, ◌≡◌, ◌↔◌, subst, ◌⊎◌, inl, inr, Option, none, some, List, [], ◌∷◌, arith,
  if◌then◌else◌, length, leb, ltb, ◌>>=◌, Bool-cases, Option-cases,
}
use sysbench.Prelude.Int.{ℤ, pos, negsuc, ◌≤ℤ◌}
use sysbench.Prelude.Text.{Str, codes}
use sysbench.Options.Table.{Opt}
use sysbench.Options.Size.{strtol}
use sysbench.Options.Set.{values_of}
use sysbench.Command.Init.{
  Qsort, int_max, max_checkpoints, checkpoint_cmp, read_checkpoint, checkpoints_from,
  init_checkpoints, accept_checkpoint, sort_some,
}

-- A comparison that orders the elements of an array.
pub record Orders (cmp : ℕ → ℕ → ℤ) (xs : List ℕ) : Type 0 where
  pub total : (a b : ℕ) → Mem a xs → Mem b xs → (cmp a b ≤ℤ pos 0) ⊎ (cmp b a ≤ℤ pos 0)
  pub trans :
      (a b c : ℕ)
      → Mem a xs
      → Mem b xs
      → Mem c xs
      → cmp a b ≤ℤ pos 0
      → cmp b c ≤ℤ pos 0
      → cmp a c ≤ℤ pos 0

-- qsort as documented: it rearranges the array, and sorts it by a comparison that orders its
-- elements.
pub record IsQsort (qsort : Qsort) : Type 0 where
  pub perm : (cmp : ℕ → ℕ → ℤ) (xs : List ℕ) → Perm (qsort cmp xs) xs
  pub ordered :
      (cmp : ℕ → ℕ → ℤ) (xs : List ℕ)
      → Orders cmp xs
      → Pairwise (λ a b. cmp a b ≤ℤ pos 0) (qsort cmp xs)

-- The difference of two checkpoints fits in an int.
checkpoint_cmp_lem : (a b : ℕ) → a ≤ int_max → b ≤ int_max → (checkpoint_cmp a b ≤ℤ pos 0) ↔ (a ≤ b)
unfolding checkpoint_cmp
checkpoint_cmp_lem a b ha hb = (λ h. ground arith, λ h. ground arith)

read_checkpoint-bound : (v : Str) {c : ℕ} → read_checkpoint v ≡ some c → c ≤ int_max
unfolding read_checkpoint accept_checkpoint
read_checkpoint-bound v e = accepted (strtol v) e
  where
    accepted : (r : ℤ × Str) {c : ℕ} → accept_checkpoint r ≡ some c → c ≤ int_max
    accepted (pos n, []) e = ground arith
    accepted (pos n, c ∷ rest) e = cc
    accepted (negsuc n, rest) e = cc

-- The readings of all the values, or none if one of them fails.
abbrev pub read_all : List Str → Option (List ℕ)
read_all [] = some []
read_all (v ∷ values) = read_checkpoint v >>= λ c. Option.map (λ rest. c ∷ rest) (read_all values)

abbrev AllSmall : List ℕ → Type 0
AllSmall [] = Unit {0}
AllSmall (x ∷ xs) = (x ≤ int_max) × AllSmall xs

AllSmall-mem : (xs : List ℕ) → AllSmall xs → (x : ℕ) → Mem x xs → x ≤ int_max
AllSmall-mem [] h = λ x m. absurd (not-mem-nil m)
AllSmall-mem (y ∷ xs) h = (forall_mem-cons (λ x. le_prop)).1 (h.0, AllSmall-mem xs h.1)

AllSmall-read_all :
    (values : List Str) {numbers : List ℕ} → read_all values ≡ some numbers → AllSmall numbers
AllSmall-read_all [] {numbers} e = let e' : [] ≡ numbers = cc in subst AllSmall e' tt
AllSmall-read_all (v ∷ values) {numbers} e = elim (Option-cases (read_checkpoint v)) [
  | inl bad ↦ absurd (cc (rw bad at e))
  | inr (c, good) ↦ elim (Option-cases (read_all values)) [
    | inl bad ↦ absurd (cc (rw (good, bad) at e))
    | inr (rest, others) ↦
        let e' : c ∷ rest ≡ numbers = cc (rw (good, others) at e) in
        subst AllSmall e' (read_checkpoint-bound v good, AllSmall-read_all values others)
  ]
]

checkpoints_from-read_all :
    (n : ℕ) (values : List Str)
    → n ≤ max_checkpoints
    → checkpoints_from n values
      ≡ (if leb (n + length values) max_checkpoints then read_all values else none)
unfolding checkpoints_from
checkpoints_from-read_all n [] h = ground arith
checkpoints_from-read_all n (v ∷ values) h = elim (Option-cases (read_checkpoint v)) [
  | inl bad ↦ rw (read_checkpoint, bad) (ground arith)
  | inr (c, good) ↦ elim (Bool-cases (ltb max_checkpoints (suc n))) [
    | inl full ↦ rw (good, full) (ground arith)
    | inr free ↦
        rw (good, free, checkpoints_from-read_all (suc n) values (ground arith)) (ground arith)
  ]
]

Pairwise-le :
    (cs : List ℕ) → AllSmall cs → Pairwise (λ a b. checkpoint_cmp a b ≤ℤ pos 0) cs → Pairwise ◌≤◌ cs
Pairwise-le [] h p = Pairwise.nil
Pairwise-le (c ∷ cs) h (Pairwise.cons below p) =
    Pairwise.cons (λ a m. (checkpoint_cmp_lem c a h.0 (AllSmall-mem cs h.1 a m)).0 (below a m))
      (Pairwise-le cs h.1 p)

AllSmall-intro : (xs : List ℕ) → ((x : ℕ) → Mem x xs → x ≤ int_max) → AllSmall xs
AllSmall-intro [] h = tt
AllSmall-intro (x ∷ xs) h =
    (h x mem-cons_self, AllSmall-intro xs (λ y m. h y (mem-cons_of_mem x m)))

-- The checkpoints in ascending order, none lost and none added.
abbrev pub IsOrdered : List ℕ → List ℕ → Type 0
IsOrdered cs numbers = Perm cs numbers × Pairwise ◌≤◌ cs

sort_some-IsOrdered :
    (qsort : Qsort) (numbers : List ℕ)
    → IsQsort qsort
    → AllSmall numbers
    → IsOrdered (sort_some qsort numbers) numbers
unfolding sort_some
sort_some-IsOrdered qsort [] q h = (Perm.rfl, Pairwise.nil)
sort_some-IsOrdered qsort (c ∷ numbers) q h =
    let xs = c ∷ numbers in
    let small = AllSmall-mem xs h in
    let orders : Orders checkpoint_cmp xs = record {
      total = λ a b m n.
          let t : (a ≤ b) ⊎ (b ≤ a) = omega arith in
          elim t [ inl h ↦ inl ((le small m n).1 h) | inr h ↦ inr ((le small n m).1 h) ];
      trans =
          λ a b d m n k ab bd. (le small m k).1 (via ((le small m n).0 ab) ((le small n k).0 bd));
    } in
    let p = q.perm checkpoint_cmp xs in
    (
      p,
      Pairwise-le (qsort checkpoint_cmp xs)
          (AllSmall-intro _ (λ x m. small x ((Perm.mem_iff p).0 m)))
          (q.ordered checkpoint_cmp xs orders),
    )
  where
    le :
        {xs : List ℕ}
        → ((x : ℕ) → Mem x xs → x ≤ int_max)
        → {a b : ℕ} → Mem a xs
        → Mem b xs
        → (checkpoint_cmp a b ≤ℤ pos 0) ↔ (a ≤ b)
    le small {a} {b} m n = checkpoint_cmp_lem a b (small a m) (small b n)

    via : {a b d : ℕ} → a ≤ b → b ≤ d → a ≤ d
    via ab bd = omega arith

-- What init does about --report-checkpoints.
abbrev pub Outcome : List Str → Option (List ℕ) → Type 0
Outcome values none = (read_all values ≡ none) ⊎ (max_checkpoints < length values)
Outcome values (some cs) =
    (numbers : List ℕ) × (read_all values ≡ some numbers)
    × (length values ≤ max_checkpoints)
    × IsOrdered cs numbers

-- With a qsort as documented, init refuses --report-checkpoints exactly when a value is not a
-- number from 0 to INT_MAX or when there are more than MAX_CHECKPOINTS of them; otherwise the
-- checkpoints are the numbers given, in ascending order: the comparison by a difference cast to int
-- orders them right.
pub init_checkpoints-Outcome :
    (qsort : Qsort) (opts : List Opt)
    → IsQsort qsort
    → Outcome (values_of opts (codes "report-checkpoints")) (init_checkpoints qsort opts)
unfolding init_checkpoints
init_checkpoints-Outcome qsort opts q = decide (values_of opts (codes "report-checkpoints"))
  where
    decide :
        (values : List Str)
        → Outcome values (Option.map (sort_some qsort) (checkpoints_from 0 values))
    decide values = elim (Bool-cases (leb (0 + length values) max_checkpoints)) [
      | inr many ↦
          rw (checkpoints_from-read_all 0 values (omega arith)) (rw many (inr (ground arith)))
      | inl few ↦ elim (Option-cases (read_all values)) [
        | inl bad ↦ rw (checkpoints_from-read_all 0 values (omega arith)) (rw (few, bad) (inl bad))
        | inr (numbers, good) ↦ rw (checkpoints_from-read_all 0 values (omega arith)) (
            rw (few, good)
              (
                numbers,
                good,
                ground arith,
                sort_some-IsOrdered qsort numbers q (AllSmall-read_all values good),
              ))
      ]
    ]

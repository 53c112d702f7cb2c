-- ===== src/Histogram/Merge.antt =====
-- What the draining of the slots in src/sb_histogram.c computes.
use sysbench.Prelude.{
  ℕ, zero, suc, ◌+◌, ◌<◌, ◌≡◌, refl, ap, List, [], ◌∷◌, map, arith, u64, u64_mod, length, get_or,
  length-map, replicate, length-replicate, sum, sym, ◌∙◌, subst,
}
use sysbench.Histogram.{drain_slot, drain_slots, clear_slots, copy_slot, snapshot, add_arrays}

-- Every slot has `size` elements.
abbrev pub AllLength : ℕ → List (List ℕ) → Type 0
AllLength size [] = Unit {0}
AllLength size (s ∷ slots) = (length s ≡ size) × AllLength size slots

-- The events that the slots hold at one index.
abbrev pub column : List (List ℕ) → ℕ → ℕ
column [] j = 0
column (s ∷ slots) j = get_or s j 0 + column slots j

-- The events that the slots hold.
abbrev pub events : List (List ℕ) → ℕ
events [] = 0
events (s ∷ slots) = sum s + events slots

length-drain_slot :
    (a s : List ℕ) (n : ℕ) → length s ≡ length a → length (drain_slot a s n).0 ≡ length a
unfolding drain_slot
length-drain_slot [] [] n h = refl
length-drain_slot [] (t ∷ s) n h = refl
length-drain_slot (x ∷ a) [] n h = refl
length-drain_slot (x ∷ a) (t ∷ s) n h = ap suc (length-drain_slot a s (u64 (n + t)) (omega arith))

cell-drain_slot :
    (a s : List ℕ) (n j : ℕ)
    → length s ≡ length a
    → u64 (get_or (drain_slot a s n).0 j 0) ≡ u64 (get_or a j 0 + get_or s j 0)
unfolding drain_slot
cell-drain_slot [] [] n j h = refl
cell-drain_slot [] (t ∷ s) n j h = omega arith
cell-drain_slot (x ∷ a) [] n j h = omega arith
cell-drain_slot (x ∷ a) (t ∷ s) n zero h = omega arith
cell-drain_slot (x ∷ a) (t ∷ s) n (suc j) h = cell-drain_slot a s (u64 (n + t)) j (omega arith)

count-drain_slot :
    (a s : List ℕ) (n : ℕ) → length s ≡ length a → u64 (drain_slot a s n).1 ≡ u64 (n + sum s)
unfolding drain_slot
count-drain_slot [] [] n h = omega arith
count-drain_slot [] (t ∷ s) n h = omega arith
count-drain_slot (x ∷ a) [] n h = omega arith
count-drain_slot (x ∷ a) (t ∷ s) n h =
    omega (arith, count-drain_slot a s (u64 (n + t)) (omega arith))

word-drain_slot : (a s : List ℕ) (n : ℕ) → n < u64_mod → (drain_slot a s n).1 < u64_mod
unfolding drain_slot
word-drain_slot [] s n h = h
word-drain_slot (x ∷ a) [] n h = h
word-drain_slot (x ∷ a) (t ∷ s) n h = word-drain_slot a s (u64 (n + t)) (omega arith)

sum-drain_slot :
    (a s : List ℕ) (n : ℕ)
    → length s ≡ length a
    → u64 (sum (drain_slot a s n).0) ≡ u64 (sum a + sum s)
unfolding drain_slot
sum-drain_slot [] [] n h = refl
sum-drain_slot [] (t ∷ s) n h = omega arith
sum-drain_slot (x ∷ a) [] n h = omega arith
sum-drain_slot (x ∷ a) (t ∷ s) n h = omega (arith, sum-drain_slot a s (u64 (n + t)) (omega arith))

-- What draining all slots into an array gives: its length stays, each element and the two counts
-- grow by what the slots held.
pub record Drained (a : List ℕ) (n : ℕ) (slots : List (List ℕ)) (out : List ℕ × ℕ) : Type 0 where
  pub len : length out.0 ≡ length a
  pub cell : (j : ℕ) → u64 (get_or out.0 j 0) ≡ u64 (get_or a j 0 + column slots j)
  pub count : u64 out.1 ≡ u64 (n + events slots)
  pub total : u64 (sum out.0) ≡ u64 (sum a + events slots)
  pub word : n < u64_mod → out.1 < u64_mod

pub drain_slots-Drained :
    (slots : List (List ℕ)) (a : List ℕ) (n : ℕ)
    → AllLength (length a) slots
    → Drained a n slots (drain_slots a slots n)
unfolding drain_slots
drain_slots-Drained [] a n h = record {
  len = refl;
  cell = λ j. omega arith;
  count = omega arith;
  total = omega arith;
  word = λ h. h;
}
drain_slots-Drained (s ∷ slots) a n h =
    let e = length-drain_slot a s n h.0 in
    let ih =
      drain_slots-Drained slots (drain_slot a s n).0 (drain_slot a s n).1
        (subst (λ k. AllLength k slots) (sym e) h.1) in
    record {
      len = ih.len ∙ e;
      cell = λ j. omega (arith, ih.cell j, cell-drain_slot a s n j h.0);
      count = omega (arith, ih.count, count-drain_slot a s n h.0);
      total = omega (arith, ih.total, sum-drain_slot a s n h.0);
      word = λ p. ih.word (word-drain_slot a s n p);
    }

-- Slot 0 is taken over as it is.
copy_slot-array : (s : List ℕ) (n : ℕ) → (copy_slot s n).0 ≡ s
unfolding copy_slot
copy_slot-array [] n = refl
copy_slot-array (t ∷ s) n = ap (λ r. t ∷ r) (copy_slot-array s (u64 (n + t)))

count-copy_slot : (s : List ℕ) (n : ℕ) → u64 (copy_slot s n).1 ≡ u64 (n + sum s)
unfolding copy_slot
count-copy_slot [] n = omega arith
count-copy_slot (t ∷ s) n = omega (arith, count-copy_slot s (u64 (n + t)))

-- The snapshot of sb_histogram_get_pct_intermediate is the slots' contents, index by index.
pub record Snapshot (size : ℕ) (slots : List (List ℕ)) (out : List ℕ × ℕ) : Type 0 where
  pub len : length out.0 ≡ size
  pub cell : (j : ℕ) → u64 (get_or out.0 j 0) ≡ u64 (column slots j)
  pub count : u64 out.1 ≡ u64 (events slots)
  pub total : u64 (sum out.0) ≡ u64 (events slots)

pub snapshot-Snapshot :
    (size : ℕ) (slots : List (List ℕ))
    → 0 < length slots
    → AllLength size slots
    → Snapshot size slots (snapshot slots)
unfolding snapshot
snapshot-Snapshot size [] p h = absurd (omega arith)
snapshot-Snapshot size (s ∷ slots) p h =
    let e = copy_slot-array s 0 in
    let d =
      drain_slots-Drained slots (copy_slot s 0).0 (copy_slot s 0).1
        (subst (λ k. AllLength k slots) (sym (ap length e ∙ h.0)) h.1) in
    record {
      len = d.len ∙ ap length e ∙ h.0;
      cell = λ j. omega (arith, d.cell j, ap (λ r. get_or r j 0) e);
      count = omega (arith, d.count, count-copy_slot s 0);
      total = omega (arith, d.total, ap sum e);
    }

pub length-add_arrays : (cs as' : List ℕ) → length (add_arrays cs as') ≡ length cs
unfolding add_arrays
length-add_arrays [] as' = refl
length-add_arrays (c ∷ cs) [] = refl
length-add_arrays (c ∷ cs) (a ∷ as') = ap suc (length-add_arrays cs as')

pub cell-add_arrays :
    (cs as' : List ℕ) (j : ℕ)
    → length as' ≡ length cs
    → u64 (get_or (add_arrays cs as') j 0) ≡ u64 (get_or cs j 0 + get_or as' j 0)
unfolding add_arrays
cell-add_arrays [] [] j h = refl
cell-add_arrays [] (a ∷ as') j h = omega arith
cell-add_arrays (c ∷ cs) [] j h = omega arith
cell-add_arrays (c ∷ cs) (a ∷ as') zero h = omega arith
cell-add_arrays (c ∷ cs) (a ∷ as') (suc j) h = cell-add_arrays cs as' j (omega arith)

pub sum-add_arrays :
    (cs as' : List ℕ)
    → length as' ≡ length cs
    → u64 (sum (add_arrays cs as')) ≡ u64 (sum cs + sum as')
unfolding add_arrays
sum-add_arrays [] [] h = refl
sum-add_arrays [] (a ∷ as') h = omega arith
sum-add_arrays (c ∷ cs) [] h = omega arith
sum-add_arrays (c ∷ cs) (a ∷ as') h = omega (arith, sum-add_arrays cs as' (omega arith))

-- Cleared slots keep their shape and hold nothing.
get_or-zeros : (s : List ℕ) (j : ℕ) → get_or {A = ℕ} (map (λ _. 0) s) j 0 ≡ 0
get_or-zeros [] j = refl
get_or-zeros (t ∷ s) zero = refl
get_or-zeros (t ∷ s) (suc j) = get_or-zeros s j

pub column-clear_slots : (slots : List (List ℕ)) (j : ℕ) → column (clear_slots slots) j ≡ 0
unfolding clear_slots
column-clear_slots [] j = refl
column-clear_slots (s ∷ slots) j = omega (arith, get_or-zeros s j, column-clear_slots slots j)

pub AllLength-clear_slots :
    (size : ℕ) (slots : List (List ℕ)) → AllLength size slots → AllLength size (clear_slots slots)
unfolding clear_slots
AllLength-clear_slots size [] h = tt
AllLength-clear_slots size (s ∷ slots) h =
    (length-map s _ ∙ h.0, AllLength-clear_slots size slots h.1)

pub length-clear_slots : (slots : List (List ℕ)) → length (clear_slots slots) ≡ length slots
unfolding clear_slots
length-clear_slots slots = length-map slots _

pub AllLength-replicate : (n size : ℕ) → AllLength size (replicate n (replicate size 0))
AllLength-replicate zero size = tt
AllLength-replicate (suc n) size = (length-replicate size 0, AllLength-replicate n size)

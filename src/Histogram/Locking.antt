-- ===== src/Histogram/Locking.antt =====
-- src/sb_histogram.c: what initialisation and printing leave behind.
use mathlib.Core.Option
use sysbench.Prelude.{
  ℕ, zero, suc, ◌+◌, ◌<◌, ◌≡◌, ◌↔◌, refl, true, false, none, some, List, [], ◌∷◌, arith, u64_mod,
  sum, replicate, length-replicate, ltb, ◌==◌, if◌then◌else◌, Bool-cases, inl, inr,
}
use sysbench.Prelude.Float.{Double}
use sysbench.Histogram.{
  Histogram, nslots, init, print, max_count, merge_intermediate_into_cumulative, get_pct_cumulative,
  get_pct_intermediate, get_pct_checkpoint,
}
use sysbench.Histogram.Merge.{AllLength-replicate, column}
use sysbench.Histogram.Conserve.{IsValid, recorded, get_or-replicate, sum-replicate}

column-replicate : (n size j : ℕ) → column (replicate n (replicate size 0)) j ≡ 0
column-replicate zero size j = refl
column-replicate (suc n) size j = omega (arith, get_or-replicate size j, column-replicate n size j)

max_count-eq-zero : (maxcnt : ℕ) (a : List ℕ) → (max_count maxcnt a ≡ 0) ↔ (maxcnt + sum a ≡ 0)
unfolding max_count
max_count-eq-zero m [] = (λ h. omega arith, λ h. omega arith)
max_count-eq-zero m (x ∷ a) =
    let ih = max_count-eq-zero (if ltb m x then x else m) a in
    (λ h. ground (arith, ih.0 h), λ h. ih.1 (ground arith))

module _ (F : Double) where
  open F use {D}

  -- sb_histogram_init, when its allocations succeed, records no event at any index, but it takes
  -- the count of accumulated events from the memory it is given: the histogram is valid exactly
  -- when that memory held 0 there.
  pub init-IsValid :
      (h : Histogram D) (size : ℕ) (lo hi : D)
      → 0 < size
      → h.cumulative_nevents < u64_mod
      → (out : Histogram D) × (init F true h size lo hi ≡ some out)
        × ((j : ℕ) → recorded out j ≡ 0)
        × (IsValid out ↔ (h.cumulative_nevents ≡ 0))
  unfolding init
  init-IsValid h size lo hi pos word = (
    _,
    refl,
    λ j. omega (arith, get_or-replicate size j, column-replicate nslots size j),
    (
      λ v. omega (arith, v.consistent, sum-replicate size),
      λ z. record {
        size_pos = pos;
        cumulative_len = length-replicate size 0;
        slots_len = length-replicate nslots (replicate {A = ℕ} size 0);
        slots_shape = AllLength-replicate nslots size;
        word = word;
        consistent = omega (arith, sum-replicate size);
      },
    ),
  )

  -- sb_histogram_print returns, and holds the lock afterwards exactly when the merged array is
  -- empty of events; it prints nothing then.
  pub print-locked :
      (h : Histogram D)
      → h.locked ≡ false
      → (out : Histogram D) × (Option.map (λ r. r.0) (print F h) ≡ some out)
        × ((out.locked ≡ true) ↔ (sum (merge_intermediate_into_cumulative h).cumulative_array ≡ 0))
  unfolding print merge_intermediate_into_cumulative
  print-locked h free =
      let m = merge_intermediate_into_cumulative h in
      let zero_iff = max_count-eq-zero 0 m.cumulative_array in
      elim (Bool-cases (max_count 0 m.cumulative_array == 0)) [
        | inl empty ↦ (record m { locked = true }, rw (free, empty), ground arith)
        | inr some_events ↦ (record m { locked = false }, rw (free, some_events), ground arith)
      ]

  -- Once the lock is left held, no reading function of the histogram returns.
  pub locked-blocks :
      (h : Histogram D) (percentile : D)
      → h.locked ≡ true
      → (get_pct_intermediate F percentile h ≡ none)
        × (get_pct_cumulative F percentile h ≡ none)
        × (get_pct_checkpoint F percentile h ≡ none)
        × (print F h ≡ none)
  unfolding get_pct_intermediate get_pct_cumulative get_pct_checkpoint print
  locked-blocks h p held = (rw held, rw held, rw held, rw held)

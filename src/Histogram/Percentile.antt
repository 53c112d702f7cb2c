-- ===== src/Histogram/Percentile.antt =====
-- src/sb_histogram.c: which index a percentile picks.
use mathlib.Core.Option
use sysbench.Prelude.{
  ℕ, zero, suc, ◌+◌, ◌≤◌, ◌<◌, ◌≡◌, false, some, List, [], ◌∷◌, arith, u64, u64_mod, length, sum,
  take, Bool-cases, leb→le, leb, inl, inr,
}
use sysbench.Prelude.Float.{Double}
use sysbench.Histogram.{
  Histogram, pct_index, nmax_of, value_at, merge_intermediate_into_cumulative, get_pct_cumulative,
  pct_cumulative,
}
use sysbench.Histogram.Conserve.{IsValid, merge-IsValid}

-- `i` is the first index of the array at which the running count, begun at `ncur`, is `nmax`.
pub record FirstReaching (nmax ncur : ℕ) (array : List ℕ) (i : ℕ) : Type 0 where
  pub in_array : i < length array
  pub reached : nmax ≤ ncur + sum (take (suc i) array)
  pub first : (k : ℕ) → k < i → ncur + sum (take (suc k) array) < nmax

length_pos : (array : List ℕ) → 0 < sum array → 0 < length array
length_pos [] h = h
length_pos (a ∷ array) h = omega arith

FirstReaching-cons :
    (nmax ncur a : ℕ) (array : List ℕ) (i : ℕ)
    → ncur + a < nmax
    → FirstReaching nmax (ncur + a) array i
    → FirstReaching nmax ncur (a ∷ array) (suc i)
FirstReaching-cons nmax ncur a array i h f = record {
  in_array = omega (arith, f.in_array);
  reached = omega (arith, f.reached);
  first = first;
}
  where
    first : (k : ℕ) → k < suc i → ncur + sum (take (suc k) (a ∷ array)) < nmax
    first zero p = omega arith
    first (suc k) p = omega (arith, f.first k (omega arith))

-- The loop stops at the first index whose running count reaches `nmax`, if there is one.
pub pct_index-first :
    (nmax ncur : ℕ) (array : List ℕ)
    → 0 < length array
    → nmax ≤ ncur + sum array
    → ncur + sum array < u64_mod
    → FirstReaching nmax ncur array (pct_index nmax ncur array)
unfolding pct_index
pct_index-first nmax ncur [] ne hn hw = absurd (omega arith)
pct_index-first nmax ncur (a ∷ array) ne hn hw = rw word (elim (Bool-cases (leb nmax (ncur + a))) [
  | inl done ↦
      let le = leb→le nmax (ncur + a) done in
      rw done (record {
        in_array = omega arith;
        reached = omega arith;
        first = λ k h. absurd (omega arith);
      })
  | inr more ↦
      let gt : ncur + a < nmax = ground arith in
      rw more (
        FirstReaching-cons nmax ncur a array _ gt (
          pct_index-first nmax (ncur + a) array (length_pos array (omega arith)) (omega arith)
            (omega arith)))
])
  where
    word : u64 (ncur + a) ≡ ncur + a
    word = omega arith

module _ (F : Double) where
  open F use {D}

  -- For a count of events that fits 64 bits and a rank within it, sb_histogram_get_pct_cumulative
  -- returns the value of the first index at which the merged running count reaches the rank, and
  -- that index lies in the array.
  pub get_pct_cumulative-first :
      (h : Histogram D) (percentile : D)
      → IsValid h
      → h.locked ≡ false
      → let m = merge_intermediate_into_cumulative h in
        sum m.cumulative_array < u64_mod
        → nmax_of F m.cumulative_nevents percentile ≤ m.cumulative_nevents
        → (i : ℕ) × (Option.map (λ out. out.1) (get_pct_cumulative F percentile h)
            ≡ some (value_at F h i))
          × FirstReaching (nmax_of F m.cumulative_nevents percentile) 0 m.cumulative_array i
  unfolding get_pct_cumulative pct_cumulative
  get_pct_cumulative-first h p v free hw hr =
      let m = merge_intermediate_into_cumulative h in
      let v' = merge-IsValid h v in
      (
        pct_index (nmax_of F m.cumulative_nevents p) 0 m.cumulative_array,
        rw free,
        pct_index-first (nmax_of F m.cumulative_nevents p) 0 m.cumulative_array
            (omega (arith, v'.cumulative_len, v'.size_pos)) (omega (arith, v'.consistent, v'.word))
            (omega arith),
      )

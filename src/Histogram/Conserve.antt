-- ===== src/Histogram/Conserve.antt =====
-- The events that a histogram of src/sb_histogram.c records, and its representation invariant.
use mathlib.Core.Option
use sysbench.Prelude.{
  ℕ, zero, suc, ◌+◌, ◌%◌, ◌<◌, ◌≡◌, ◌∙◌, refl, sym, true, false, some, List, [], ◌∷◌, arith, u64,
  u64_mod, length, get_or, modify, length-modify, sum, replicate, length-replicate, ◌==◌,
  if◌then◌else◌,
}
use sysbench.Prelude.Int.{ℤ, pos, negsuc}
use sysbench.Prelude.Float.{Double}
use sysbench.Histogram.{
  Histogram, nslots, clamp_index, inc64, snapshot, pct_intermediate, pct_cumulative,
  merge_intermediate_into_cumulative, index_of, update, get_pct_intermediate, get_pct_cumulative,
  get_pct_checkpoint,
}
use sysbench.Histogram.Merge.{
  AllLength, column, drain_slots-Drained, snapshot-Snapshot, length-add_arrays, cell-add_arrays,
  sum-add_arrays, column-clear_slots, AllLength-clear_slots, length-clear_slots,
}

-- The representation invariant: arrays of one length, 128 slots, and a count of the accumulated
-- events that agrees with the array.
pub record IsValid {D : Type 0} (h : Histogram D) : Type 0 where
  pub size_pos : 0 < h.array_size
  pub cumulative_len : length h.cumulative_array ≡ h.array_size
  pub slots_len : length h.interm_slots ≡ nslots
  pub slots_shape : AllLength h.array_size h.interm_slots
  pub word : h.cumulative_nevents < u64_mod
  pub consistent : u64 h.cumulative_nevents ≡ u64 (sum h.cumulative_array)

-- The abstract histogram: the events recorded at index `j`, wherever they are kept.
abbrev pub recorded : {D : Type 0} → Histogram D → ℕ → ℕ
recorded h j = u64 (get_or h.cumulative_array j 0 + column h.interm_slots j)

pub get_or-modify :
    (s : List ℕ) (i j : ℕ) (f : ℕ → ℕ)
    → i < length s
    → get_or (modify s i f) j 0 ≡ (if j == i then f (get_or s j 0) else get_or s j 0)
get_or-modify [] i j f h = absurd (omega arith)
get_or-modify (x ∷ s) zero zero f h = refl
get_or-modify (x ∷ s) zero (suc j) f h = ground arith
get_or-modify (x ∷ s) (suc i) zero f h = ground arith
get_or-modify (x ∷ s) (suc i) (suc j) f h = ground (arith, get_or-modify s i j f)

column-modify :
    (size : ℕ) (slots : List (List ℕ)) (k i j : ℕ)
    → k < length slots
    → AllLength size slots
    → i < size
    → u64 (column (modify slots k (λ s. modify s i inc64)) j)
      ≡ u64 (column slots j + (if j == i then 1 else 0))
column-modify size [] k i j hk hs hi = absurd (omega arith)
column-modify size (s ∷ slots) zero i j hk hs hi = ground (arith, get_or-modify s i j inc64)
column-modify size (s ∷ slots) (suc k) i j hk hs hi =
    omega (arith, column-modify size slots k i j (omega arith) hs.1 hi)

AllLength-modify :
    (size : ℕ) (slots : List (List ℕ)) (k i : ℕ) (f : ℕ → ℕ)
    → AllLength size slots
    → AllLength size (modify slots k (λ s. modify s i f))
AllLength-modify size [] k i f h = tt
AllLength-modify size (s ∷ slots) zero i f h = (length-modify s i f ∙ h.0, h.1)
AllLength-modify size (s ∷ slots) (suc k) i f h = (h.0, AllLength-modify size slots k i f h.1)

-- The clamped index always lies in the array, whatever the value and the float rounding.
pub clamp_index-lt : (size : ℕ) (i : ℤ) → 0 < size → clamp_index size i < size
unfolding clamp_index
clamp_index-lt size (pos n) h = ground arith
clamp_index-lt size (negsuc n) h = h

pub merge-IsValid :
    {D : Type 0} (h : Histogram D) → IsValid h → IsValid (merge_intermediate_into_cumulative h)
unfolding merge_intermediate_into_cumulative
merge-IsValid h v =
    let d =
      drain_slots-Drained h.interm_slots h.cumulative_array h.cumulative_nevents
        (rw v.cumulative_len v.slots_shape) in
    record {
      size_pos = v.size_pos;
      cumulative_len = d.len ∙ v.cumulative_len;
      slots_len = length-clear_slots h.interm_slots ∙ v.slots_len;
      slots_shape = AllLength-clear_slots h.array_size h.interm_slots v.slots_shape;
      word = d.word v.word;
      consistent = omega (arith, d.count, d.total, v.consistent);
    }

merge-recorded :
    {D : Type 0} (h : Histogram D) (j : ℕ)
    → IsValid h
    → recorded (merge_intermediate_into_cumulative h) j ≡ recorded h j
unfolding merge_intermediate_into_cumulative
merge-recorded h j v =
    let d =
      drain_slots-Drained h.interm_slots h.cumulative_array h.cumulative_nevents
        (rw v.cumulative_len v.slots_shape) in
    omega (arith, d.cell j, column-clear_slots h.interm_slots j)

unlocked : {D : Type 0} {h : Histogram D} → IsValid h → IsValid (record h { locked = false })
unlocked v = record {
  size_pos = v.size_pos;
  cumulative_len = v.cumulative_len;
  slots_len = v.slots_len;
  slots_shape = v.slots_shape;
  word = v.word;
  consistent = v.consistent;
}

pub sum-replicate : (n : ℕ) → sum (replicate n 0) ≡ 0
sum-replicate zero = refl
sum-replicate (suc n) = omega (arith, sum-replicate n)

pub get_or-replicate : (n j : ℕ) → get_or {A = ℕ} (replicate n 0) j 0 ≡ 0
get_or-replicate zero j = refl
get_or-replicate (suc n) zero = refl
get_or-replicate (suc n) (suc j) = get_or-replicate n j

module _ (F : Double) where
  open F use {D}

  pub index_of-lt : (h : Histogram D) (x : D) → IsValid h → index_of F h x < h.array_size
  unfolding index_of
  index_of-lt h x v = clamp_index-lt h.array_size _ v.size_pos

  -- sb_histogram_update records exactly one event, at the index of the value, and leaves every
  -- other index as it was, whichever slot the random number picks; the histogram stays valid.
  pub recorded-update :
      (h : Histogram D) (x : D) (random j : ℕ)
      → IsValid h
      → (recorded (update F h x random) j
          ≡ (if j == index_of F h x then u64 (recorded h j + 1) else recorded h j))
        × IsValid (update F h x random)
  unfolding update
  recorded-update h x random j v =
      let hi = index_of-lt h x v in
      let hk : random % nslots < length h.interm_slots = omega (arith, v.slots_len) in
      let c =
        column-modify h.array_size h.interm_slots (random % nslots) (index_of F h x) j hk
          v.slots_shape hi in
      (
        ground (arith, c),
        record {
          size_pos = v.size_pos;
          cumulative_len = v.cumulative_len;
          slots_len = length-modify h.interm_slots _ _ ∙ v.slots_len;
          slots_shape =
              AllLength-modify h.array_size h.interm_slots (random % nslots) (index_of F h x) inc64
                v.slots_shape;
          word = v.word;
          consistent = v.consistent;
        },
      )

  -- sb_histogram_get_pct_intermediate returns, with the lock released, and moves every event from
  -- the slots to the cumulative array: at each index as many events are recorded as before.
  pub get_pct_intermediate-conserves :
      (h : Histogram D) (percentile : D)
      → IsValid h
      → h.locked ≡ false
      → (out : Histogram D × D) × (get_pct_intermediate F percentile h ≡ some out)
        × IsValid out.0
        × (out.0.locked ≡ false)
        × ((j : ℕ) → recorded out.0 j ≡ recorded h j)
        × ((j : ℕ) → column out.0.interm_slots j ≡ 0)
  unfolding get_pct_intermediate
  get_pct_intermediate-conserves h p v free =
      let done = pct_intermediate F p (record h { locked = true }) in
      let sn =
        snapshot-Snapshot h.array_size h.interm_slots (omega (arith, v.slots_len)) v.slots_shape in
      let same : length (snapshot h.interm_slots).0 ≡ length h.cumulative_array =
        sn.len ∙ sym v.cumulative_len in
      (
        (record done.0 { locked = false }, done.1),
        rw free,
        record {
          size_pos = v.size_pos;
          cumulative_len =
              length-add_arrays h.cumulative_array (snapshot h.interm_slots).0 ∙ v.cumulative_len;
          slots_len = length-clear_slots h.interm_slots ∙ v.slots_len;
          slots_shape = AllLength-clear_slots h.array_size h.interm_slots v.slots_shape;
          word = omega arith;
          consistent = omega (
            arith,
            v.consistent,
            sn.count,
            sn.total,
            sum-add_arrays h.cumulative_array (snapshot h.interm_slots).0 same,
          );
        },
        refl,
        λ j. omega (
          arith,
          sn.cell j,
          column-clear_slots h.interm_slots j,
          cell-add_arrays h.cumulative_array (snapshot h.interm_slots).0 j same,
        ),
        λ j. column-clear_slots h.interm_slots j,
      )

  -- sb_histogram_get_pct_cumulative returns, with the lock released, and keeps what is recorded at
  -- each index, in the cumulative array alone.
  pub get_pct_cumulative-conserves :
      (h : Histogram D) (percentile : D)
      → IsValid h
      → h.locked ≡ false
      → (out : Histogram D × D) × (get_pct_cumulative F percentile h ≡ some out)
        × IsValid out.0
        × (out.0.locked ≡ false)
        × ((j : ℕ) → recorded out.0 j ≡ recorded h j)
        × ((j : ℕ) → column out.0.interm_slots j ≡ 0)
  unfolding get_pct_cumulative pct_cumulative
  get_pct_cumulative-conserves h p v free =
      let h' = merge_intermediate_into_cumulative h in
      (
        (record h' { locked = false }, pct_cumulative F h' p),
        rw free,
        unlocked (merge-IsValid h v),
        refl,
        λ j. merge-recorded h j v,
        λ j. column-clear_slots h.interm_slots j,
      )

  -- sb_histogram_get_pct_checkpoint returns, with the lock released, the value that
  -- sb_histogram_get_pct_cumulative would return, and leaves a valid histogram with no event.
  pub get_pct_checkpoint-resets :
      (h : Histogram D) (percentile : D)
      → IsValid h
      → h.locked ≡ false
      → (out : Histogram D × D) × (get_pct_checkpoint F percentile h ≡ some out)
        × (Option.map (λ r. r.1) (get_pct_cumulative F percentile h) ≡ some out.1)
        × IsValid out.0
        × (out.0.locked ≡ false)
        × ((j : ℕ) → recorded out.0 j ≡ 0)
  unfolding get_pct_checkpoint get_pct_cumulative pct_cumulative
  get_pct_checkpoint-resets h p v free =
      let h' = merge_intermediate_into_cumulative h in
      let v' = merge-IsValid h v in
      (
        (
          record h' {
            cumulative_array = replicate h.array_size 0;
            cumulative_nevents = 0;
            locked = false;
          },
          pct_cumulative F h' p,
        ),
        rw free,
        rw free,
        record {
          size_pos = v.size_pos;
          cumulative_len = length-replicate h.array_size 0;
          slots_len = v'.slots_len;
          slots_shape = v'.slots_shape;
          word = omega arith;
          consistent = omega (arith, sum-replicate h.array_size);
        },
        refl,
        λ j. omega (arith, column-clear_slots h.interm_slots j, get_or-replicate h.array_size j),
      )

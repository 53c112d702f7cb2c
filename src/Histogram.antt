-- ===== src/Histogram.antt =====
-- src/sb_histogram.c: the latency histogram. Events go into one of 128 slots of counters picked at
-- random; a percentile first drains the slots into a cumulative array. `locked` is the state of
-- the rwlock that the reading functions take; an operation that would wait for a lock nobody
-- releases is `none`.
pub mod Merge
pub mod Conserve
pub mod Percentile
pub mod Locking
mod Tests
use sysbench.Prelude.{
  ℕ, suc, ◌+◌, ◌-◌, ◌%◌, Bool, true, false, Option, none, some, List, [], ◌∷◌, map, u64, leb, ltb,
  ◌==◌, if◌then◌else◌, modify, replicate,
}
use sysbench.Prelude.Int.{ℤ, pos, negsuc}
use sysbench.Prelude.Float.{Double}

-- SB_HISTOGRAM_NSLOTS
abbrev pub nslots : ℕ
nslots = 128

pub record Histogram (D : Type 0) : Type 0 where
  pub cumulative_array : List ℕ
  pub cumulative_nevents : ℕ
  pub temp_array : List ℕ
  pub interm_slots : List (List ℕ)
  pub array_size : ℕ
  pub range_min : D
  pub range_max : D
  pub range_deduct : D
  pub range_mult : D
  pub locked : Bool

-- The clamping of `i` in sb_histogram_update, an ssize_t, to [0, array_size - 1].
pub clamp_index : ℕ → ℤ → ℕ
clamp_index size (negsuc n) = 0
clamp_index size (pos n) = if leb size n then size - 1 else n

-- ck_pr_inc_64
abbrev pub inc64 : ℕ → ℕ
inc64 n = u64 (n + 1)

-- One slot emptied into `array`, the count of its events added to `nevents`.
pub drain_slot : List ℕ → List ℕ → ℕ → List ℕ × ℕ
drain_slot (a ∷ array) (t ∷ slot) nevents =
    let (array', nevents') = drain_slot array slot (u64 (nevents + t)) in
    (u64 (a + t) ∷ array', nevents')
drain_slot array slot nevents = (array, nevents)

pub drain_slots : List ℕ → List (List ℕ) → ℕ → List ℕ × ℕ
drain_slots array [] nevents = (array, nevents)
drain_slots array (slot ∷ slots) nevents =
    let (array', nevents') = drain_slot array slot nevents in drain_slots array' slots nevents'

-- What the slots hold once ck_pr_fas_64 has replaced each element by 0.
pub clear_slots : List (List ℕ) → List (List ℕ)
clear_slots = map (map (λ _. 0))

-- The loop over slot 0 in sb_histogram_get_pct_intermediate, which overwrites the array.
pub copy_slot : List ℕ → ℕ → List ℕ × ℕ
copy_slot [] nevents = ([], nevents)
copy_slot (t ∷ slot) nevents =
    let (array, nevents') = copy_slot slot (u64 (nevents + t)) in (t ∷ array, nevents')

-- Slot 0 is copied, the others are added.
pub snapshot : List (List ℕ) → List ℕ × ℕ
snapshot [] = ([], 0)
snapshot (slot ∷ slots) = let (array, nevents) = copy_slot slot 0 in drain_slots array slots nevents

-- The final addition of temp_array to cumulative_array.
pub add_arrays : List ℕ → List ℕ → List ℕ
add_arrays (c ∷ cs) (a ∷ as') = u64 (c + a) ∷ add_arrays cs as'
add_arrays cs as' = cs

-- The loop that looks for a percentile: the first index at which the running count reaches `nmax`,
-- or the array's length.
pub pct_index : ℕ → ℕ → List ℕ → ℕ
pct_index nmax ncur [] = 0
pct_index nmax ncur (a ∷ array) =
    let rest = pct_index nmax (u64 (ncur + a)) array in
    if leb nmax (u64 (ncur + a)) then 0 else suc rest

-- merge_intermediate_into_cumulative
pub merge_intermediate_into_cumulative : {D : Type 0} → Histogram D → Histogram D
merge_intermediate_into_cumulative h =
    let (array, nevents) = drain_slots h.cumulative_array h.interm_slots h.cumulative_nevents in
    record h {
      cumulative_array = array;
      cumulative_nevents = nevents;
      interm_slots = clear_slots h.interm_slots;
    }

-- pthread_rwlock_wrlock .. pthread_rwlock_unlock round `body`
pub with_lock :
    {D R : Type 0} → (Histogram D → Histogram D × R) → Histogram D → Option (Histogram D × R)
with_lock body h =
    let (h', r) = body (record h { locked = true }) in
    if h.locked then none else some (record h' { locked = false }, r)

-- The conversion of a double to uint64_t; of a negative one C defines none.
pub to_u64 : ℤ → ℕ
to_u64 (pos n) = u64 n
to_u64 (negsuc n) = 0

-- The loop for `maxcnt` in sb_histogram_print.
pub max_count : ℕ → List ℕ → ℕ
max_count maxcnt [] = maxcnt
max_count maxcnt (a ∷ array) = max_count (if ltb maxcnt a then a else maxcnt) array

module _ (F : Double) where
  open F use {D, add, sub, mul, div, log, exp, floor, of_nat, half}

  -- sb_histogram_init on the memory `h`; `allocated` says whether calloc and malloc succeed.
  pub init : Bool → Histogram D → ℕ → D → D → Option (Histogram D)
  init allocated h size range_min range_max =
      let deduct = log range_min in
      if allocated
      then some (record h {
        cumulative_array = replicate size 0;
        temp_array = replicate size 0;
        interm_slots = replicate nslots (replicate size 0);
        range_deduct = deduct;
        range_mult = div (of_nat (size - 1)) (sub (log range_max) deduct);
        range_min = range_min;
        range_max = range_max;
        array_size = size;
        locked = false;
      })
      else none

  -- The index of a value: rounded, then clamped.
  pub index_of : Histogram D → D → ℕ
  unfolding clamp_index
  index_of h value =
      clamp_index h.array_size
        (floor (add (mul (sub (log value) h.range_deduct) h.range_mult) half))

  -- sb_histogram_update; `random` is what sb_rand_uniform_uint64 returns.
  pub update : Histogram D → D → ℕ → Histogram D
  unfolding index_of
  update h value random = record h {
    interm_slots =
        modify h.interm_slots (random % nslots) (λ slot. modify slot (index_of h value) inc64);
  }

  -- nmax = floor(nevents * percentile / 100 + 0.5)
  pub nmax_of : ℕ → D → ℕ
  unfolding to_u64
  nmax_of nevents percentile =
      to_u64 (floor (add (div (mul (of_nat nevents) percentile) (of_nat 100)) half))

  -- The value that stands for an index.
  pub value_at : Histogram D → ℕ → D
  value_at h i = exp (add (div (of_nat i) h.range_mult) h.range_deduct)

  -- sb_histogram_get_pct_intermediate between lock and unlock
  pub pct_intermediate : D → Histogram D → Histogram D × D
  unfolding value_at
  pct_intermediate percentile h =
      let (array, nevents) = snapshot h.interm_slots in
      let i = pct_index (nmax_of nevents percentile) 0 array in
      (
        record h {
          temp_array = array;
          interm_slots = clear_slots h.interm_slots;
          cumulative_array = add_arrays h.cumulative_array array;
          cumulative_nevents = u64 (h.cumulative_nevents + nevents);
        },
        value_at h i,
      )

  pub get_pct_intermediate : D → Histogram D → Option (Histogram D × D)
  unfolding with_lock pct_intermediate
  get_pct_intermediate percentile = with_lock (pct_intermediate percentile)

  -- get_pct_cumulative
  pub pct_cumulative : Histogram D → D → D
  unfolding value_at
  pct_cumulative h percentile =
      value_at h (pct_index (nmax_of h.cumulative_nevents percentile) 0 h.cumulative_array)

  -- sb_histogram_get_pct_cumulative
  pub get_pct_cumulative : D → Histogram D → Option (Histogram D × D)
  unfolding with_lock merge_intermediate_into_cumulative
  get_pct_cumulative percentile =
      with_lock
        (λ h. let h' = merge_intermediate_into_cumulative h in (h', pct_cumulative h' percentile))

  -- sb_histogram_get_pct_checkpoint
  pub get_pct_checkpoint : D → Histogram D → Option (Histogram D × D)
  unfolding with_lock merge_intermediate_into_cumulative
  get_pct_checkpoint percentile = with_lock (λ h.
      let h' = merge_intermediate_into_cumulative h in
      (
        record h' { cumulative_array = replicate h'.array_size 0; cumulative_nevents = 0 },
        pct_cumulative h' percentile,
      ))

  -- A line that sb_histogram_print prints: value, width of the bar, count.
  rows : Histogram D → ℕ → ℕ → List ℕ → List (D × ℤ × ℕ)
  unfolding value_at
  rows h maxcnt i [] = []
  rows h maxcnt i (n ∷ array) =
      let rest = rows h maxcnt (i + 1) array in
      if n == 0
      then rest
      else ((value_at h i, floor (add (div (mul (of_nat n) (of_nat 40)) (of_nat maxcnt)) half), n)
          ∷ rest)

  -- sb_histogram_print. It leaves early when there is no event, with the lock still held.
  pub print : Histogram D → Option (Histogram D × List (D × ℤ × ℕ))
  unfolding merge_intermediate_into_cumulative max_count rows
  print h =
      let h' = merge_intermediate_into_cumulative (record h { locked = true }) in
      let maxcnt = max_count 0 h'.cumulative_array in
      if h.locked
      then none
      else if maxcnt == 0
      then some (h', [])
      else some (record h' { locked = false }, rows h' maxcnt 0 h'.cumulative_array)

-- ===== src/Counters/Sums.antt =====
-- The sums and differences that the reports of src/sb_counter.c compute.
use sysbench.Prelude.{
  ℕ, zero, suc, ◌+◌, ◌≤◌, ◌<◌, ◌≡◌, ◌∙◌, refl, sym, ap, List, [], ◌∷◌, arith, u64, u64_mod, sub64,
  get_or, modify, replicate, length, length-modify, ◌==◌, ltb, ◌&&◌, if◌then◌else◌, Bool-cases, inl,
  inr,
}
use sysbench.Counters.{
  Counters, CounterType, index, cnt_max, counter_val, counter_add, merge_threads, merge_from,
  checkpoint, agg_intermediate, agg_cumulative,
}
use sysbench.Histogram.Conserve.{get_or-modify}

-- A call on the counters, by any thread.
pub data Call : Type 0 where
  add : ℕ → CounterType → ℕ → Call
  report_intermediate : Call
  report_cumulative : Call

pub data Kind : Type 0 where
  intermediate : Kind
  cumulative : Kind

-- One report of a kind.
unfoldable pub report : Kind → Counters → Counters × List ℕ
unfolding agg_intermediate agg_cumulative
report intermediate c = agg_intermediate c
report cumulative c = agg_cumulative c

unfoldable pub perform : Counters → Call → Counters
unfolding counter_add agg_intermediate agg_cumulative
perform c (add thread_id type val) = counter_add c thread_id type val
perform c report_intermediate = (agg_intermediate c).0
perform c report_cumulative = (agg_cumulative c).0

unfoldable pub perform_all : Counters → List Call → Counters
unfolding perform
perform_all c [] = c
perform_all c (a ∷ calls) = perform_all (perform c a) calls

-- What the reports of one kind say of a type, added up.
unfoldable pub reported : Kind → ℕ → Counters → List Call → ℕ
unfolding perform
reported k t c [] = 0
reported intermediate t c (report_intermediate ∷ calls) =
    get_or (agg_intermediate c).1 t 0 + reported intermediate t (agg_intermediate c).0 calls
reported cumulative t c (report_cumulative ∷ calls) =
    get_or (agg_cumulative c).1 t 0 + reported cumulative t (agg_cumulative c).0 calls
reported k t c (a ∷ calls) = reported k t (perform c a) calls

-- What the worker threads have counted of a type; the background thread's calls do not count.
unfoldable pub counted : ℕ → ℕ → List Call → ℕ
counted threads t [] = 0
counted threads t (add thread_id type val ∷ calls) =
    (if ltb thread_id threads && index type == t then val else 0) + counted threads t calls
counted threads t (a ∷ calls) = counted threads t calls

-- A row of eight counters for each thread and the background thread, and two last reports.
abbrev pub AllRows : List (List ℕ) → Type 0
AllRows [] = Unit {0}
AllRows (row ∷ rows) = (length row ≡ cnt_max) × AllRows rows

pub record IsValid (c : Counters) : Type 0 where
  pub rows_len : length c.rows ≡ suc c.threads
  pub rows_shape : AllRows c.rows
  pub intermediate_len : length c.last_intermediate ≡ cnt_max
  pub cumulative_len : length c.last_cumulative ≡ cnt_max
  pub intermediate_words : (t : ℕ) → get_or c.last_intermediate t 0 < u64_mod
  pub cumulative_words : (t : ℕ) → get_or c.last_cumulative t 0 < u64_mod

-- The sum that a merge computes, without the wrap-around.
abbrev pub total : Counters → ℕ → ℕ → ℕ
total c zero t = 0
total c (suc i) t = total c i t + counter_val c i t

pub index-lt : (type : CounterType) → index type < cnt_max
index-lt type = ground arith

merge_threads-total :
    (c : Counters) (n t d : ℕ) → u64 (merge_threads c n t d) ≡ u64 (d + total c n t)
unfolding merge_threads
merge_threads-total c zero t d = omega arith
merge_threads-total c (suc n) t d = omega (arith, merge_threads-total c n t d)

merge_threads-lt : (c : Counters) (n t d : ℕ) → d < u64_mod → merge_threads c n t d < u64_mod
unfolding merge_threads
merge_threads-lt c zero t d h = h
merge_threads-lt c (suc n) t d h = omega arith

length-merge_from : (c : Counters) (t : ℕ) (dst : List ℕ) → length (merge_from c t dst) ≡ length dst
unfolding merge_from
length-merge_from c t [] = refl
length-merge_from c t (d ∷ dst) = ap suc (length-merge_from c (suc t) dst)

cell-merge_from :
    (c : Counters) (s t : ℕ) (n : ℕ)
    → t < n
    → get_or (merge_from c s (replicate n 0)) t 0 ≡ merge_threads c c.threads (s + t) 0
unfolding merge_from
cell-merge_from c s t zero h = absurd (omega arith)
cell-merge_from c s zero (suc n) h = ap (λ k. merge_threads c c.threads k 0) (omega arith)
cell-merge_from c s (suc t) (suc n) h =
    cell-merge_from c (suc s) t n (omega arith)
    ∙ ap (λ k. merge_threads c c.threads k 0) (omega arith)

length-checkpoint :
    (dst cp : List ℕ) → length dst ≡ length cp → (length (checkpoint dst cp).1 ≡ length cp)
unfolding checkpoint
length-checkpoint [] [] h = refl
length-checkpoint [] (x ∷ cp) h = refl
length-checkpoint (d ∷ dst) [] h = refl
length-checkpoint (d ∷ dst) (x ∷ cp) h = ap suc (length-checkpoint dst cp (omega arith))

cell-checkpoint :
    (dst cp : List ℕ) (t : ℕ)
    → length dst ≡ length cp
    → (get_or (checkpoint dst cp).0 t 0 ≡ sub64 (get_or dst t 0) (get_or cp t 0))
      × (get_or (checkpoint dst cp).1 t 0 ≡ get_or dst t 0)
unfolding checkpoint
cell-checkpoint [] [] t h = (omega arith, refl)
cell-checkpoint [] (x ∷ cp) t h = absurd (omega arith)
cell-checkpoint (d ∷ dst) [] t h = absurd (omega arith)
cell-checkpoint (d ∷ dst) (x ∷ cp) zero h = (refl, refl)
cell-checkpoint (d ∷ dst) (x ∷ cp) (suc t) h = cell-checkpoint dst cp t (omega arith)

abbrev pub last : Kind → Counters → ℕ → ℕ
last intermediate c t = get_or c.last_intermediate t 0
last cumulative c t = get_or c.last_cumulative t 0

checkpointed :
    (c : Counters) (cp : List ℕ) (t : ℕ)
    → length cp ≡ cnt_max
    → get_or cp t 0 < u64_mod
    → t < cnt_max
    → (u64 (get_or (checkpoint (merge_from c 0 (replicate cnt_max 0)) cp).0 t 0 + get_or cp t 0)
        ≡ u64 (total c c.threads t))
      × (get_or (checkpoint (merge_from c 0 (replicate cnt_max 0)) cp).1 t 0
          ≡ u64 (total c c.threads t))
checkpointed c cp t len word h =
    let (d, l) =
      cell-checkpoint (merge_from c 0 (replicate cnt_max 0)) cp t
        (length-merge_from c 0 (replicate cnt_max 0) ∙ sym len) in
    let m : get_or (merge_from c 0 (replicate cnt_max 0)) t 0 ≡ merge_threads c c.threads t 0 =
      cell-merge_from c 0 t cnt_max h ∙ ap (λ k. merge_threads c c.threads k 0) (omega arith) in
    omega (
      arith,
      d,
      l,
      m,
      merge_threads-total c c.threads t 0,
      word,
      merge_threads-lt c c.threads t 0 (omega arith),
    )

-- A report is the difference between what is counted now and the last report of its kind.
pub report_lem :
    (k : Kind) (c : Counters) (t : ℕ)
    → IsValid c
    → t < cnt_max
    → (u64 (get_or (report k c).1 t 0 + last k c t) ≡ u64 (total c c.threads t))
      × (last k (report k c).0 t ≡ u64 (total c c.threads t))
unfolding report agg_intermediate agg_cumulative
report_lem intermediate c t v h =
    checkpointed c c.last_intermediate t v.intermediate_len (v.intermediate_words t) h
report_lem cumulative c t v h =
    checkpointed c c.last_cumulative t v.cumulative_len (v.cumulative_words t) h

get_or-long : (xs : List ℕ) (t : ℕ) → length xs ≤ t → get_or xs t 0 ≡ 0
get_or-long [] t h = refl
get_or-long (x ∷ xs) zero h = absurd (omega arith)
get_or-long (x ∷ xs) (suc t) h = get_or-long xs t (omega arith)

next_last :
    (c : Counters) (cp : List ℕ)
    → length cp ≡ cnt_max
    → ((t : ℕ) → get_or cp t 0 < u64_mod)
    → (length (checkpoint (merge_from c 0 (replicate cnt_max 0)) cp).1 ≡ cnt_max)
      × ((t : ℕ) → get_or (checkpoint (merge_from c 0 (replicate cnt_max 0)) cp).1 t 0 < u64_mod)
next_last c cp len words =
    let len' =
      length-checkpoint (merge_from c 0 (replicate cnt_max 0)) cp
        (length-merge_from c 0 (replicate cnt_max 0) ∙ sym len)
      ∙ len in
    (
      len',
      λ t. elim (Bool-cases (ltb t cnt_max)) [
        | inl inside ↦ omega (arith, (checkpointed c cp t len (words t) (ground arith)).1)
        | inr outside ↦ omega (
          arith,
          get_or-long (checkpoint (merge_from c 0 (replicate cnt_max 0)) cp).1 t
              (ground (arith, len')),
        )
      ],
    )

pub report-IsValid : (k : Kind) (c : Counters) → IsValid c → IsValid (report k c).0
unfolding report agg_intermediate agg_cumulative
report-IsValid intermediate c v =
    let (len, words) = next_last c c.last_intermediate v.intermediate_len v.intermediate_words in
    record {
      rows_len = v.rows_len;
      rows_shape = v.rows_shape;
      intermediate_len = len;
      cumulative_len = v.cumulative_len;
      intermediate_words = words;
      cumulative_words = v.cumulative_words;
    }
report-IsValid cumulative c v =
    let (len, words) = next_last c c.last_cumulative v.cumulative_len v.cumulative_words in
    record {
      rows_len = v.rows_len;
      rows_shape = v.rows_shape;
      intermediate_len = v.intermediate_len;
      cumulative_len = len;
      intermediate_words = v.intermediate_words;
      cumulative_words = words;
    }

AllRows-modify :
    (rows : List (List ℕ)) (i j : ℕ) (f : ℕ → ℕ)
    → AllRows rows
    → AllRows (modify rows i (λ row. modify row j f))
AllRows-modify [] i j f h = tt
AllRows-modify (row ∷ rows) zero j f h = (length-modify row j f ∙ h.0, h.1)
AllRows-modify (row ∷ rows) (suc i) j f h = (h.0, AllRows-modify rows i j f h.1)

pub add-IsValid :
    (c : Counters) (i : ℕ) (type : CounterType) (val : ℕ)
    → IsValid c
    → IsValid (counter_add c i type val)
unfolding counter_add
add-IsValid c i type val v = record {
  rows_len = length-modify c.rows i _ ∙ v.rows_len;
  rows_shape = AllRows-modify c.rows i (index type) _ v.rows_shape;
  intermediate_len = v.intermediate_len;
  cumulative_len = v.cumulative_len;
  intermediate_words = v.intermediate_words;
  cumulative_words = v.cumulative_words;
}

-- The counter of a thread after an addition.
cell-add :
    (rows : List (List ℕ)) (i j n t : ℕ) (val : ℕ)
    → i < length rows
    → j < cnt_max
    → AllRows rows
    → u64 (get_or (get_or (modify rows i (λ row. modify row j (λ k. u64 (k + val)))) n []) t 0)
      ≡ u64 (get_or (get_or rows n []) t 0 + (if n == i && j == t then val else 0))
cell-add [] i j n t val hi hj h = absurd (omega arith)
cell-add (row ∷ rows) zero j zero t val hi hj h =
    ground (arith, get_or-modify row j t (λ k. u64 (k + val)) (ground (arith, h.0)))
cell-add (row ∷ rows) zero j (suc n) t val hi hj h = ground arith
cell-add (row ∷ rows) (suc i) j zero t val hi hj h = ground arith
cell-add (row ∷ rows) (suc i) j (suc n) t val hi hj h =
    ground (arith, cell-add rows i j n t val (omega arith) hj h.1)

pub total-add :
    (c : Counters) (i : ℕ) (type : CounterType) (val t n : ℕ)
    → IsValid c
    → i < suc c.threads
    → u64 (total (counter_add c i type val) n t)
      ≡ u64 (total c n t + (if ltb i n && index type == t then val else 0))
unfolding counter_add
total-add c i type val t zero v h = ground arith
total-add c i type val t (suc n) v h =
    let cell =
      cell-add c.rows i (index type) n t val (omega (arith, v.rows_len)) (index-lt type)
        v.rows_shape in
    let ih = total-add c i type val t n v h in ground (arith, cell, ih)

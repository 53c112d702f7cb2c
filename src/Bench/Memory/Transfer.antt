-- ===== src/Bench/Memory/Transfer.antt =====
-- How much memory the events of src/tests/memory/sb_memory.c cover.
use sysbench.Prelude.{
  ℕ, zero, suc, ◌+◌, ◌-◌, ◌*◌, ◌/◌, ◌≤◌, ◌<◌, ◌≡◌, ◌∙◌, refl, ap, subst, true, Option, none, some,
  ◌>>=◌, ◌&&◌, lt→ltb, List, [], ◌∷◌, arith, u64_mod, sub64, ltb, leb, ◌==◌, if◌then◌else◌, get_or,
  set, length, length-set, replicate, Bool-cases, Option-cases, length-replicate,
}
use native.Mathlib.Nat.{div-div-eq-div-mul, mul-div-le, lt-mul-div-succ, div-le_self}
use sysbench.Prelude.Text.{Str}
use sysbench.Bench.Memory.{
  Memory, sizeof_size_t, is_block_size, scope_of, oper_of, access_of, memory_init, seq_none,
  seq_none_from, next_event, seq_write, seq_write_from, seq_read, seq_read_from,
}

get_or-set :
    (xs : List ℕ) (i j v : ℕ)
    → i < length xs
    → get_or (set xs i v) j 0 ≡ (if i == j then v else get_or xs j 0)
get_or-set [] i j v h = absurd (omega arith)
get_or-set (x ∷ xs) zero zero v h = refl
get_or-set (x ∷ xs) zero (suc j) v h = ground arith
get_or-set (x ∷ xs) (suc i) zero v h = ground arith
get_or-set (x ∷ xs) (suc i) (suc j) v h = ground (arith, get_or-set xs i j v)

get_or-set_self : (xs : List ℕ) (i v : ℕ) → i < length xs → get_or (set xs i v) i 0 ≡ v
get_or-set_self [] i v h = absurd (omega arith)
get_or-set_self (x ∷ xs) zero v h = refl
get_or-set_self (x ∷ xs) (suc i) v h = get_or-set_self xs i v (omega arith)

-- The events of one thread until next_event has none, with the calls of next_event as fuel.
pub events_of : ℕ → ℕ → Memory → Option ℕ
events_of zero tid m = none
events_of (suc fuel) tid m =
    let rest = events_of fuel tid (next_event tid m).0 >>= λ n. some (suc n) in
    if (next_event tid m).1 then rest else some 0

events_of-counter :
    (n fuel tid : ℕ) (m : Memory)
    → n < fuel
    → n < u64_mod
    → 0 < m.total_size
    → tid < length m.thread_counters
    → get_or m.thread_counters tid 0 ≡ n
    → events_of fuel tid m ≡ some n
unfolding events_of next_event
events_of-counter n zero tid m enough word some_size inside e = absurd (omega arith)
events_of-counter zero (suc fuel) tid m enough word some_size inside e =
    rw (lt→ltb 0 m.total_size some_size, e) refl
events_of-counter (suc n) (suc fuel) tid m enough word some_size inside e =
    let ih =
      events_of-counter n fuel tid
        (record m { thread_counters = set m.thread_counters tid (sub64 (suc n) 1) }) (omega arith)
        (omega arith) some_size (omega (arith, length-set m.thread_counters tid (sub64 (suc n) 1)))
        (get_or-set_self m.thread_counters tid (sub64 (suc n) 1) inside ∙ omega arith) in
    rw (lt→ltb 0 m.total_size some_size, e, ih) (ground arith)

get_or-replicate_inside : (n i v : ℕ) → i < n → get_or (replicate n v) i 0 ≡ v
get_or-replicate_inside zero i v h = absurd (omega arith)
get_or-replicate_inside (suc n) zero v h = refl
get_or-replicate_inside (suc n) (suc i) v h = get_or-replicate_inside n i v (omega arith)

-- The words that event_seq_write has written.
seq_write_from-get :
    (tid rounds i j : ℕ) (buf : List ℕ)
    → i + rounds ≤ length buf
    → get_or (seq_write_from tid rounds i buf) j 0
      ≡ (if leb i j && ltb j (i + rounds) then tid else get_or buf j 0)
unfolding seq_write_from
seq_write_from-get tid zero i j buf h = ground arith
seq_write_from-get tid (suc rounds) i j buf h = ground (
  arith,
  seq_write_from-get tid rounds (suc i) j (set buf i tid),
  length-set buf i tid,
  get_or-set buf i j tid,
)

memory_init-fields :
    (threads block_size total_size : ℕ) (scope oper access : Str) (m : Memory)
    → memory_init threads block_size total_size scope oper access ≡ some m
    → (is_block_size block_size ≡ true)
      × (m.total_size ≡ total_size)
      × (m.thread_counters ≡ replicate threads (total_size / block_size / threads))
      × (m.max_offset ≡ block_size / sizeof_size_t - 1)
unfolding memory_init
memory_init-fields threads block_size total_size scope oper access m e = ground (
  arith,
  Bool-cases (is_block_size block_size),
  Option-cases (scope_of scope),
  Option-cases (oper_of oper),
  Option-cases (access_of access),
)

-- An even share of the blocks.
share :
    (total b t : ℕ)
    → 0 < b * t
    → (t * (total / b / t) * b ≤ total) × (total < t * (total / b / t + 1) * b)
share total b t pos =
    let e = div-div-eq-div-mul total b t in
    rw e (
      subst (λ k. k ≤ total) (regroup b t (total / (b * t))) (mul-div-le total (b * t)),
      subst (λ k. total < k) (regroup b t (total / (b * t) + 1)) (lt-mul-div-succ total pos),
    )
  where
    regroup : (b t q : ℕ) → b * t * q ≡ t * q * b
    regroup b t q = grind arith

share-le : (total b t : ℕ) → total / b / t ≤ total
share-le total b t = omega (arith, div-le_self (total / b) t, div-le_self total b)

valid-pos : (b : ℕ) → is_block_size b ≡ true → 0 < b
unfolding is_block_size
valid-pos zero h = ground arith
valid-pos (suc b) h = omega arith

positive : (b t : ℕ) → 0 < b → 0 < t → 0 < b * t
positive b t p q = grind arith

-- After memory_init with a total size above 0, every thread gets as many events as the total
-- size holds blocks, divided by the number of threads, and then none. What all threads transfer is
-- at most the total size, and misses less than one block for each thread.
pub memory_init-events :
    (threads block_size total_size tid : ℕ) (scope oper access : Str) (m : Memory)
    → memory_init threads block_size total_size scope oper access ≡ some m
    → 0 < total_size
    → total_size < u64_mod
    → tid < threads
    → (n : ℕ) × (events_of (suc n) tid m ≡ some n)
      × (threads * n * block_size ≤ total_size)
      × (total_size < threads * (n + 1) * block_size)
memory_init-events threads block_size total_size tid scope oper access m e some_size word inside =
    let (valid, total, counters, _) =
      memory_init-fields threads block_size total_size scope oper access m e in
    let n = total_size / block_size / threads in
    let (lo, hi) =
      share total_size block_size threads
        (positive block_size threads (valid-pos block_size valid) (omega arith)) in
    (
      n,
      events_of-counter n (suc n) tid m (omega arith)
          (omega (arith, share-le total_size block_size threads)) (omega (arith, total))
          (rw counters (omega (arith, length-replicate threads n)))
          (rw counters (get_or-replicate_inside threads tid n inside)),
      lo,
      hi,
    )

length-seq_none_from : (n i : ℕ) → length (seq_none_from n i) ≡ n
unfolding seq_none_from
length-seq_none_from zero i = refl
length-seq_none_from (suc n) i = ap suc (length-seq_none_from n (suc i))

length-seq_read_from : (buf : List ℕ) (n i : ℕ) → length (seq_read_from buf n i) ≡ n
unfolding seq_read_from
length-seq_read_from buf zero i = refl
length-seq_read_from buf (suc n) i = ap suc (length-seq_read_from buf n (suc i))

-- event_seq_write leaves the last word of the block as it was, and writes the thread's number to
-- all others; event_seq_read loads one word less than event_seq_none visits.
pub seq_write-last :
    (m : Memory) (tid j : ℕ) (buf : List ℕ)
    → length buf ≡ m.max_offset + 1
    → (get_or (seq_write m tid buf) j 0 ≡ (if ltb j m.max_offset then tid else get_or buf j 0))
      × (length (seq_read m buf) + 1 ≡ length (seq_none m))
unfolding seq_write seq_read seq_none
seq_write-last m tid j buf len = (
  ground (arith, seq_write_from-get tid m.max_offset 0 j buf),
  omega (arith, length-seq_read_from buf m.max_offset 0, length-seq_none_from (m.max_offset + 1) 0),
)

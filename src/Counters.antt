-- ===== src/Counters.antt =====
-- src/sb_counter.h and src/sb_counter.c: event and query counters, one row per thread, and the
-- two kinds of report on them.
pub mod Sums
pub mod Reports
mod Tests
use sysbench.Prelude.{
  ℕ, zero, suc, ◌+◌, ◌*◌, Bool, true, false, List, [], ◌∷◌, u64, sub64, get_or, modify, replicate,
}

-- sb_counter_type_t
pub data CounterType : Type 0 where
  other : CounterType
  read : CounterType
  write : CounterType
  event : CounterType
  error : CounterType
  reconnect : CounterType
  bytes_read : CounterType
  bytes_written : CounterType

-- The enumeration's value: the index into a row.
abbrev pub index : CounterType → ℕ
index other = 0
index read = 1
index write = 2
index event = 3
index error = 4
index reconnect = 5
index bytes_read = 6
index bytes_written = 7

-- SB_CNT_MAX
abbrev pub cnt_max : ℕ
cnt_max = 8

-- sb_globals.threads, the rows of sb_counters, and the values of the last reports
pub record Counters : Type 0 where
  pub threads : ℕ
  pub rows : List (List ℕ)
  pub last_intermediate : List ℕ
  pub last_cumulative : List ℕ

-- sb_counters_init, when the memory can be had: sb_alloc_per_thread_array gives zeroed rows for
-- the threads and a background thread. The static arrays start at zero.
unfoldable pub init : ℕ → Counters
init threads = record {
  threads = threads;
  rows = replicate (suc threads) (replicate cnt_max 0);
  last_intermediate = replicate cnt_max 0;
  last_cumulative = replicate cnt_max 0;
}

-- sb_counter_val
abbrev pub counter_val : Counters → ℕ → ℕ → ℕ
counter_val c thread_id type = get_or (get_or c.rows thread_id []) type 0

-- sb_counter_add
unfoldable pub counter_add : Counters → ℕ → CounterType → ℕ → Counters
counter_add c thread_id type val = record c {
  rows = modify c.rows thread_id (λ row. modify row (index type) (λ n. u64 (n + val)));
}

-- sb_counter_inc
unfoldable pub counter_inc : Counters → ℕ → CounterType → Counters
unfolding counter_add
counter_inc c thread_id type = counter_add c thread_id type 1

-- The inner loop of sb_counters_merge, up to thread `n`.
unfoldable pub merge_threads : Counters → ℕ → ℕ → ℕ → ℕ
merge_threads c zero type dst = dst
merge_threads c (suc i) type dst = u64 (merge_threads c i type dst + counter_val c i type)

-- sb_counters_merge from type `t` on
unfoldable pub merge_from : Counters → ℕ → List ℕ → List ℕ
unfolding merge_threads
merge_from c t [] = []
merge_from c t (d ∷ dst) = merge_threads c c.threads t d ∷ merge_from c (suc t) dst

-- sb_counters_checkpoint: the differences to the last report, and the new last report
unfoldable pub checkpoint : List ℕ → List ℕ → List ℕ × List ℕ
checkpoint [] cp = ([], cp)
checkpoint (d ∷ dst) [] = (d ∷ dst, [])
checkpoint (d ∷ dst) (tmp ∷ cp) = let (ds, cps) = checkpoint dst cp in (sub64 d tmp ∷ ds, d ∷ cps)

-- sb_counters_agg_intermediate
unfoldable pub agg_intermediate : Counters → Counters × List ℕ
unfolding merge_from checkpoint
agg_intermediate c =
    let (val, cp) = checkpoint (merge_from c 0 (replicate cnt_max 0)) c.last_intermediate in
    (record c { last_intermediate = cp }, val)

-- sb_counters_agg_cumulative
unfoldable pub agg_cumulative : Counters → Counters × List ℕ
unfolding merge_from checkpoint
agg_cumulative c =
    let (val, cp) = checkpoint (merge_from c 0 (replicate cnt_max 0)) c.last_cumulative in
    (record c { last_cumulative = cp }, val)

-- ===== src/Counters/Reports.antt =====
-- What the reports of src/sb_counter.c say over time, against what the worker threads count.
use sysbench.Prelude.{
  ℕ, zero, suc, ◌+◌, ◌<◌, ◌≡◌, refl, List, [], ◌∷◌, arith, u64, get_or, replicate, length-replicate,
}
use sysbench.Counters.{
  Counters, CounterType, index, cnt_max, init, counter_val, counter_add, agg_intermediate,
  agg_cumulative,
}
use sysbench.Histogram.Conserve.{get_or-replicate}
use sysbench.Counters.Sums.{
  Call, Kind, report, perform, perform_all, reported, counted, AllRows, IsValid, total, index-lt,
  last, report_lem, report-IsValid, add-IsValid, total-add, add, report_intermediate,
  report_cumulative, intermediate, cumulative,
}

-- Every call is by a worker thread or by the background thread.
abbrev pub AllThreads : ℕ → List Call → Type 0
AllThreads threads [] = Unit {0}
AllThreads threads (add thread_id type val ∷ calls) =
    (thread_id < suc threads) × AllThreads threads calls
AllThreads threads (a ∷ calls) = AllThreads threads calls

perform-IsValid : (c : Counters) (a : Call) → IsValid c → IsValid (perform c a)
unfolding perform report
perform-IsValid c (add i type val) v = add-IsValid c i type val v
perform-IsValid c report_intermediate v = report-IsValid intermediate c v
perform-IsValid c report_cumulative v = report-IsValid cumulative c v

-- What the reports have said is what the last of them saw counted.
reported_lem :
    (k : Kind) (t : ℕ) (c : Counters) (calls : List Call)
    → IsValid c
    → t < cnt_max
    → u64 (reported k t c calls + last k c t) ≡ u64 (last k (perform_all c calls) t)
unfolding reported perform_all perform report counter_add
reported_lem intermediate t c [] v h = omega arith
reported_lem cumulative t c [] v h = omega arith
reported_lem intermediate t c (add i type val ∷ calls) v h =
    reported_lem intermediate t (counter_add c i type val) calls (add-IsValid c i type val v) h
reported_lem cumulative t c (add i type val ∷ calls) v h =
    reported_lem cumulative t (counter_add c i type val) calls (add-IsValid c i type val v) h
reported_lem intermediate t c (report_intermediate ∷ calls) v h = omega (
  arith,
  report_lem intermediate c t v h,
  reported_lem intermediate t (report intermediate c).0 calls (report-IsValid intermediate c v) h,
)
reported_lem intermediate t c (report_cumulative ∷ calls) v h =
    reported_lem intermediate t (report cumulative c).0 calls (report-IsValid cumulative c v) h
reported_lem cumulative t c (report_intermediate ∷ calls) v h =
    reported_lem cumulative t (report intermediate c).0 calls (report-IsValid intermediate c v) h
reported_lem cumulative t c (report_cumulative ∷ calls) v h = omega (
  arith,
  report_lem cumulative c t v h,
  reported_lem cumulative t (report cumulative c).0 calls (report-IsValid cumulative c v) h,
)

total-perform_all :
    (c : Counters) (calls : List Call) (t : ℕ)
    → IsValid c
    → AllThreads c.threads calls
    → ((perform_all c calls).threads ≡ c.threads)
      × IsValid (perform_all c calls)
      × (u64 (total (perform_all c calls) c.threads t)
          ≡ u64 (total c c.threads t + counted c.threads t calls))
unfolding perform_all perform counted counter_add agg_intermediate agg_cumulative report
total-perform_all c [] t v h = (refl, v, omega arith)
total-perform_all c (add i type val ∷ calls) t v h =
    let (e, v', ih) =
      total-perform_all (counter_add c i type val) calls t (add-IsValid c i type val v) h.1 in
    (e, v', omega (arith, ih, total-add c i type val t c.threads v h.0))
total-perform_all c (report_intermediate ∷ calls) t v h =
    total-perform_all (report intermediate c).0 calls t (report-IsValid intermediate c v) h
total-perform_all c (report_cumulative ∷ calls) t v h =
    total-perform_all (report cumulative c).0 calls t (report-IsValid cumulative c v) h

zero_rows : (n : ℕ) → AllRows (replicate n (replicate cnt_max 0))
zero_rows zero = tt
zero_rows (suc n) = (length-replicate {A = ℕ} cnt_max 0, zero_rows n)

pub init-IsValid : (threads : ℕ) → IsValid (init threads)
unfolding init
init-IsValid threads = record {
  rows_len = length-replicate (suc threads) _;
  rows_shape = zero_rows (suc threads);
  intermediate_len = refl;
  cumulative_len = refl;
  intermediate_words = λ t. omega (arith, get_or-replicate cnt_max t);
  cumulative_words = λ t. omega (arith, get_or-replicate cnt_max t);
}

total-zero : (c : Counters) (n t : ℕ) → ((i : ℕ) → counter_val c i t ≡ 0) → total c n t ≡ 0
total-zero c zero t h = refl
total-zero c (suc n) t h = omega (arith, total-zero c n t h, h n)

init-zero : (n i t : ℕ) → get_or {A = ℕ} (get_or (replicate n (replicate cnt_max 0)) i []) t 0 ≡ 0
init-zero zero i t = refl
init-zero (suc n) zero t = get_or-replicate cnt_max t
init-zero (suc n) (suc i) t = init-zero n i t

start_last : (k : Kind) (threads t : ℕ) → last k (init threads) t ≡ 0
unfolding init
start_last intermediate threads t = get_or-replicate cnt_max t
start_last cumulative threads t = get_or-replicate cnt_max t

from_init :
    (threads : ℕ) (calls : List Call) (t : ℕ)
    → AllThreads threads calls
    → IsValid (perform_all (init threads) calls)
      × (u64 (total (perform_all (init threads) calls) (perform_all (init threads) calls).threads t)
          ≡ u64 (counted threads t calls))
unfolding init
from_init threads calls t h =
    let (e, v', count) = total-perform_all (init threads) calls t (init-IsValid threads) h in
    let z = total-zero (init threads) threads t (λ i. init-zero (suc threads) i t) in
    (v', rw e (omega (arith, count, z)))

-- Whatever the threads count and whenever the two kinds of report are made: for each type, the
-- reports of one kind, with one more made at the end, add up (on uint64_t) to what the worker
-- threads have counted since sb_counters_init. The background thread's counts are in no report, and
-- reports of the other kind change nothing.
pub reports-total :
    (threads : ℕ) (calls : List Call) (k : Kind) (type : CounterType)
    → AllThreads threads calls
    → u64 (
        reported k (index type) (init threads) calls
        + get_or (report k (perform_all (init threads) calls)).1 (index type) 0)
      ≡ u64 (counted threads (index type) calls)
reports-total threads calls k type h =
    let v = init-IsValid threads in
    let (v', count) = from_init threads calls (index type) h in
    omega (
      arith,
      reported_lem k (index type) (init threads) calls v (index-lt type),
      start_last k threads (index type),
      (report_lem k (perform_all (init threads) calls) (index type) v' (index-lt type)).0,
      count,
    )

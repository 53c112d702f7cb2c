-- ===== src/Command/Init/Times.antt =====
-- src/sysbench.c: the limits of a run that init leaves.
use sysbench.Prelude.{
  ℕ, ◌+◌, ◌*◌, ◌^◌, ◌%◌, ◌<◌, ◌≡◌, refl, false, none, some, List, arith, if◌then◌else◌, ◌==◌,
  u64_mod, u32_mod,
}
use sysbench.Prelude.Int.{pos, ltb_ℤ}
use sysbench.Prelude.Text.{codes}
use sysbench.Options.Table.{Opt}
use sysbench.Options.Set.{get_value_int}
use sysbench.Timer.{ns_per_sec}
use sysbench.Command.Init.{init_limits, time_limit}

time_limit_lem :
    (t w : ℕ)
    → t < 2 ^ 31
    → w < 2 ^ 31
    → time_limit (pos t) (pos w) ≡ (if t == 0 then 0 else (t + w) * ns_per_sec)
unfolding time_limit
time_limit_lem t w ht hw = ground arith

-- With ints of at least 0 for --threads, --events, --warmup-time and --time: init goes on exactly
-- when there is a thread, and then the threads and the limit of events are as given, and the time
-- limit in nanoseconds is the warmup and the time together, or none when the time is 0; no word
-- wraps.
pub init_limits_lem :
    (opts : List Opt) (threads timeout events warmup time : ℕ)
    → get_value_int opts (codes "threads") ≡ some (pos threads)
    → get_value_int opts (codes "thread-init-timeout") ≡ some (pos timeout)
    → get_value_int opts (codes "events") ≡ some (pos events)
    → get_value_int opts (codes "warmup-time") ≡ some (pos warmup)
    → get_value_int opts (codes "time") ≡ some (pos time)
    → threads < 2 ^ 31
    → events < 2 ^ 31
    → warmup < 2 ^ 31
    → time < 2 ^ 31
    → init_limits opts ≡ (
        if threads == 0
        then none
        else some (record {
          threads = threads;
          max_events = events;
          warmup_time = pos warmup;
          max_time_ns = if time == 0 then 0 else (time + warmup) * ns_per_sec;
        }))
unfolding init_limits
init_limits_lem opts threads timeout events warmup time et ei ee ew em ht he hw hm =
    rw (et, ei, ee, ew, em, time_limit_lem time warmup hm hw)
      (rw (small-u32 threads ht, small-u64 events he, not_negative warmup) refl)
  where
    not_negative : (n : ℕ) → ltb_ℤ (pos n) (pos 0) ≡ false
    not_negative n = ground arith

    small-u32 : (n : ℕ) → n < 2 ^ 31 → n % u32_mod ≡ n
    small-u32 n h = omega arith

    small-u64 : (n : ℕ) → n < 2 ^ 31 → n % u64_mod ≡ n
    small-u64 n h = omega arith

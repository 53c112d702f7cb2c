-- ===== src/Timer.antt =====
-- src/sb_timer.h and src/sb_timer.c: timers of events. The clock's reading, which SB_GETTIME
-- stores, is an argument of each operation that reads it. A timer's spin lock is taken and released
-- within each operation, which is then one step, and is not part of the state.
pub mod Samples
pub mod Clock
mod Tests
use sysbench.Prelude.{
  ℕ, zero, suc, ◌+◌, ◌*◌, ◌/◌, ◌%◌, ◌≤◌, Bool, true, false, u64, u64_mod, sub64, ltb, ◌==◌,
  if◌then◌else◌, ◌-◌,
}

-- NS_PER_SEC
abbrev pub ns_per_sec : ℕ
ns_per_sec = 1000000000

-- UINT64_MAX
abbrev pub uint64_max : ℕ
uint64_max = 18446744073709551615

-- struct timespec, of a clock that starts at 0
pub record Timespec : Type 0 where
  pub tv_sec : ℕ
  pub tv_nsec : ℕ

-- TIMESPEC_DIFF: the sum of SEC2NS of one difference, a uint64_t, and of the other
unfoldable pub timespec_diff : Timespec → Timespec → ℕ
timespec_diff a b = u64 (sub64 a.tv_sec b.tv_sec * ns_per_sec + sub64 a.tv_nsec b.tv_nsec)

-- sb_timer_t
pub record Timer : Type 0 where
  pub time_start : Timespec
  pub time_end : Timespec
  pub events : ℕ
  pub queue_time : ℕ
  pub min_time : ℕ
  pub max_time : ℕ
  pub sum_time : ℕ

-- sb_timer_reset
unfoldable pub reset : Timer → Timer
reset t = record t { min_time = uint64_max; max_time = 0; sum_time = 0; events = 0; queue_time = 0 }

abbrev epoch : Timespec
epoch = record { tv_sec = 0; tv_nsec = 0 }

-- sb_timer_init, which leaves nothing of what the memory held
unfoldable pub init : Timer → Timer
unfolding reset
init t = reset (record t { time_start = epoch; time_end = epoch })

-- sb_timer_running
unfoldable pub running : Timer → Bool
unfolding timespec_diff
running t = ltb 0 (timespec_diff t.time_start t.time_end)

-- sb_timer_start
unfoldable pub start : Timespec → Timer → Timer
start now t = record t { time_start = now }

-- sb_timer_stop
unfoldable pub stop : Timespec → Timer → Timer × ℕ
unfolding timespec_diff
stop now t =
    let elapsed = u64 (timespec_diff now t.time_start + t.queue_time) in
    (
      record t {
        time_end = now;
        events = u64 (t.events + 1);
        sum_time = u64 (t.sum_time + elapsed);
        min_time = if ltb elapsed t.min_time then elapsed else t.min_time;
        max_time = if ltb t.max_time elapsed then elapsed else t.max_time;
      },
      elapsed,
    )

-- sb_timer_value
unfoldable pub value : Timespec → Timer → ℕ
unfolding timespec_diff
value now t = u64 (timespec_diff now t.time_start + t.queue_time)

-- sb_timer_current
unfoldable pub current : Timespec → Timer → Timer × ℕ
unfolding timespec_diff
current now t = (record t { time_start = now }, timespec_diff now t.time_start)

-- sb_timer_checkpoint: the timer, and what `old` points to
unfoldable pub checkpoint : Timer → Timer × Timer
unfolding reset
checkpoint t = (reset t, t)

-- sb_timer_avg
unfoldable pub timer_avg : Timer → ℕ
timer_avg t = if t.events == 0 then 0 else t.sum_time / t.events

-- sb_timer_sum
unfoldable pub timer_sum : Timer → ℕ
timer_sum t = t.sum_time

-- sb_timer_min
unfoldable pub timer_min : Timer → ℕ
timer_min t = if t.events == 0 then 0 else t.min_time

-- sb_timer_max
unfoldable pub timer_max : Timer → ℕ
timer_max t = t.max_time

-- sb_timer_merge: the fields that it does not set stay zero.
unfoldable pub merge : Timer → Timer → Timer
merge t1 t2 = record {
  time_start = epoch;
  time_end = epoch;
  events = u64 (t1.events + t2.events);
  queue_time = 0;
  min_time = if ltb t1.min_time t2.min_time then t1.min_time else t2.min_time;
  max_time = if ltb t2.max_time t1.max_time then t1.max_time else t2.max_time;
  sum_time = u64 (t1.sum_time + t2.sum_time);
}

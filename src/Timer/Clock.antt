-- ===== src/Timer/Clock.antt =====
-- What src/sb_timer.h measures, on a clock whose nanoseconds fit in a uint64_t.
use sysbench.Prelude.{ℕ, ◌+◌, ◌-◌, ◌*◌, ◌≤◌, ◌<◌, ◌≡◌, ◌≢◌, ◌↔◌, refl, true, arith, u64, u64_mod}
use sysbench.Timer.{
  Timespec, Timer, ns_per_sec, timespec_diff, start, stop, value, running, current,
}

-- The nanoseconds since the clock's start.
abbrev pub ns : Timespec → ℕ
ns ts = ts.tv_sec * ns_per_sec + ts.tv_nsec

-- A reading of the clock.
abbrev pub IsReading : Timespec → Type 0
IsReading ts = (ts.tv_nsec < ns_per_sec) × (ns ts < u64_mod)

timespec_diff_lem :
    (a b : Timespec) → IsReading a → IsReading b → timespec_diff a b ≡ u64 (ns a + u64_mod - ns b)
unfolding timespec_diff
timespec_diff_lem a b h k = omega arith

-- Between readings of the clock that do not go back, sb_timer_stop returns, and adds to the sum,
-- the nanoseconds since sb_timer_start and the event's time in the queue; sb_timer_value at the
-- same time would have been that.
pub stop-start :
    (t : Timer) (a b : Timespec)
    → IsReading a
    → IsReading b
    → ns a ≤ ns b
    → ((stop b (start a t)).1 ≡ u64 (ns b - ns a + t.queue_time))
      × ((stop b (start a t)).0.sum_time ≡ u64 (t.sum_time + (ns b - ns a) + t.queue_time))
      × (value b (start a t) ≡ (stop b (start a t)).1)
unfolding stop start value
stop-start t a b h k later =
    let d = timespec_diff_lem b a k h in (omega (arith, d), omega (arith, d), refl)

-- sb_timer_running tells only whether the times of the last start and the last stop differ: a timer
-- that sb_timer_stop has stopped later than it was started is said to be running.
pub running-stop :
    (t : Timer) (a b : Timespec)
    → IsReading a
    → IsReading b
    → (running (stop b (start a t)).0 ≡ true) ↔ (ns a ≢ ns b)
unfolding running stop start
running-stop t a b h k =
    let d = timespec_diff_lem a b h k in (λ r same. ground (arith, d), λ differ. ground (arith, d))

-- Calls of sb_timer_current at times that do not go back return the times between them: two of them
-- return together the nanoseconds since the timer was started.
pub current-current :
    (t : Timer) (a b c : Timespec)
    → IsReading a
    → IsReading b
    → IsReading c
    → ns a ≤ ns b
    → ns b ≤ ns c
    → (current b (start a t)).1 + (current c (current b (start a t)).0).1 ≡ ns c - ns a
unfolding current start
current-current t a b c ha hb hc ab bc =
    omega (arith, timespec_diff_lem b a hb ha, timespec_diff_lem c b hc hb)

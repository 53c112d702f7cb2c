-- ===== src/Barrier.antt =====
-- src/sb_barrier.c: a barrier with a callback. sb_barrier_wait runs under the barrier's mutex but
-- for its sleep on the condition variable, so a call is two atomic parts: `arrive`, up to the
-- return or the sleep, and `resume`, once a thread that was woken has the mutex again. The callback
-- changes a world of type W and says whether it failed.
pub mod System
pub mod Round
pub mod Init
pub mod Results
mod Tests
use sysbench.Prelude.{
  ℕ, ◌+◌, Bool, true, false, Option, none, some, List, [], ◌∷◌, u32, sub32, ◌==◌, if◌then◌else◌,
}
use sysbench.Prelude.Int.{ℤ, pos, negsuc}

-- sb_barrier_t; the mutex is what makes the two parts atomic.
pub record Barrier (W : Type 0) : Type 0 where
  pub init_count : ℕ
  pub count : ℕ
  pub callback : Option (W → W × Bool)
  pub serial : ℕ
  pub error : Bool

-- What a call of sb_barrier_wait has come to: not made, asleep in pthread_cond_wait with the serial
-- it saw, woken there but not yet at the mutex, returned.
pub data Status : Type 0 where
  idle : Status
  waiting : ℕ → Status
  woken : ℕ → Status
  returned : ℤ → Status

-- SB_BARRIER_SERIAL_THREAD
abbrev pub serial_thread : ℤ
serial_thread = pos 1

module _ {W : Type 0} where
  -- sb_barrier_init, when the mutex and the condition variable can be made
  unfoldable pub init : ℕ → Option (W → W × Bool) → Option (Barrier W)
  init count callback =
      if count == 0
      then none
      else some (record {
        init_count = count;
        count = count;
        callback = callback;
        serial = 0;
        error = false;
      })

  pub run_callback : Option (W → W × Bool) → W → W × Bool
  run_callback none w = (w, false)
  run_callback (some f) w = f w

  -- The thread that makes the count 0 runs the callback; `true` is its pthread_cond_broadcast.
  pub release : Barrier W → W → Barrier W × W × Status × Bool
  unfolding run_callback
  release b w =
      let (w', failed) = run_callback b.callback w in
      let next = record b { serial = u32 (b.serial + 1); count = b.init_count } in
      if failed
      then (record next { error = true }, w', returned (negsuc 0), true)
      else (next, w', returned serial_thread, true)

  -- sb_barrier_wait up to the first sleep, and whether it makes the broadcast;
  -- `--barrier->count` is on an unsigned int.
  pub arrive : Barrier W → W → Barrier W × W × Status × Bool
  unfolding release
  arrive b w =
      let next = record b { count = sub32 b.count 1 } in
      if next.count == 0 then release next w else (next, w, waiting b.serial, false)

  -- After a wake-up of a thread that saw `serial`: it sleeps on while the serial is the same.
  pub resume : Barrier W → ℕ → Status
  resume b serial =
      if serial == b.serial then waiting serial else returned (if b.error then negsuc 0 else pos 0)

-- pthread_cond_broadcast: every thread that sleeps is woken.
abbrev pub wake_up : Status → Status
wake_up (waiting serial) = woken serial
wake_up status = status

abbrev pub broadcast : List Status → List Status
broadcast [] = []
broadcast (status ∷ threads) = wake_up status ∷ broadcast threads

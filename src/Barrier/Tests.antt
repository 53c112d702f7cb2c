-- ===== src/Barrier/Tests.antt =====
-- A barrier of two threads whose callback counts its calls.
use sysbench.Prelude.{tally, ℕ, ◌+◌, ◌≡◌, refl, Bool, false, some, [], ◌∷◌, arith, if◌then◌else◌}
use sysbench.Prelude.Int.{pos}
use sysbench.Barrier.{Barrier, woken, returned, run_callback, release, arrive}
use sysbench.Barrier.System.{System, call, Reach, here, next, Steps, calls, start}
use sysbench.Barrier.Round.{is_idle, is_serial, IsFresh}
use sysbench.Barrier.Results.{is_negative, is_inside, returned-together, all_return}

abbrev count_calls : ℕ → ℕ × Bool
count_calls n = (n + 1, false)

abbrev pair : Barrier ℕ
pair = record { init_count = 2; count = 2; callback = some count_calls; serial = 0; error = false }

pair-IsFresh : IsFresh pair
pair-IsFresh = record {
  count_pos = omega arith;
  count_init = refl;
  count_word = omega arith;
  serial_word = omega arith;
  no_error = refl;
}

-- Both threads have called; the second has returned.
abbrev both_called : System ℕ
both_called = record {
  barrier = record pair { serial = 1 };
  world = 1;
  threads = woken 0 ∷ returned (pos 1) ∷ [];
}

both_called-Reach : Reach (start pair 0) both_called
unfolding call arrive release run_callback
both_called-Reach =
    next (next here (calls (start pair 0) 0 refl)) (calls (call (start pair 0) 0) 1 refl)

returned-together_example :
    (tally is_idle both_called.threads ≡ 0)
    × (both_called.world ≡ (run_callback (some count_calls) 0).0)
    × (is_negative (pos 1) ≡ (run_callback (some count_calls) 0).1)
    × (tally is_serial both_called.threads
        ≡ (if (run_callback (some count_calls) 0).1 then 0 else 1))
returned-together_example = returned-together pair 0 1 (pos 1) pair-IsFresh both_called-Reach refl

all_return_example :
    (t : System ℕ) × Steps both_called t
    × (tally is_idle t.threads ≡ 0)
    × (tally is_inside t.threads ≡ 0)
all_return_example = all_return pair 0 both_called pair-IsFresh both_called-Reach

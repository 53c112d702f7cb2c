-- ===== src/Bench/Mutex.antt =====
-- src/tests/mutex/sb_mutex.c: one event locks mutexes at random. The numbers that sb_rand_uniform
-- returns are an argument, and the empty inner loop is left out.
pub mod Rounds
mod Tests
use sysbench.Prelude.{
  ℕ, zero, suc, ◌+◌, Bool, true, false, Option, none, some, List, [], ◌∷◌, u32, sub32, ltb, ◌==◌,
  if◌then◌else◌,
}

-- mutex_next_event: one event for each thread. tls_counter, an int that stays small, counts up, and
-- the request holds nlocks.
unfoldable pub next_event : ℕ → ℕ → ℕ × Option ℕ
next_event mutex_locks tls_counter =
    (u32 (tls_counter + 1), if ltb 0 tls_counter then none else some mutex_locks)

-- What mutex_execute_event leaves: global_var and the locks taken, the last one first.
pub record Done : Type 0 where
  pub global_var : ℕ
  pub taken : List ℕ

-- The do-while loop of mutex_execute_event; `random k` is the lock of round k.
unfoldable pub execute_from : (ℕ → ℕ) → ℕ → ℕ → ℕ → Done → Option Done
execute_from random zero k nlocks d = none
execute_from random (suc fuel) k nlocks d =
    let d' : Done = record { global_var = u32 (d.global_var + 1); taken = random k ∷ d.taken } in
    let rest = execute_from random fuel (suc k) (sub32 nlocks 1) d' in
    if ltb 0 (sub32 nlocks 1) then rest else some d'

-- mutex_execute_event
unfoldable pub execute_event : (ℕ → ℕ) → ℕ → ℕ → ℕ → Option Done
unfolding execute_from
execute_event random fuel nlocks global_var =
    execute_from random fuel 0 nlocks (record { global_var = global_var; taken = [] })

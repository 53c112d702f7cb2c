-- ===== src/Bench/Mutex/Tests.antt =====
-- Runs of the loops of src/tests/mutex/sb_mutex.c and src/tests/threads/sb_threads.c.
use sysbench.Prelude.{◌%◌, ◌≡◌, refl, none, some, [], ◌∷◌, arith, u32, ◌+◌, length}
use sysbench.Bench.Mutex.{Done, next_event, execute_event}
use sysbench.Bench.Mutex.Rounds.{rounds, AllBelow, execute_event-rounds}
use sysbench.Bench.Threads
use sysbench.Bench.Threads.{threads_init, lock, yield_thread, unlock}

only_once : (next_event 5 0).1 ≡ some 5
unfolding next_event
only_once = refl

then_none : (next_event 5 1).1 ≡ none
unfolding next_event
then_none = refl

two_locks : execute_event (λ k. k % 4) 9 2 7 ≡ some (record { global_var = 9; taken = 1 ∷ 0 ∷ [] })
unfolding execute_event
two_locks = refl

execute_event-rounds_example :
    (e : Done) × (execute_event (λ k. 3) 4294967296 0 7 ≡ some e)
    × (length e.taken ≡ rounds 0)
    × (e.global_var ≡ u32 (7 + rounds 0))
    × AllBelow 4 e.taken
execute_event-rounds_example =
    execute_event-rounds (λ k. 3) 4 0 7 4294967296 (λ k. omega arith) (omega arith) (omega arith)

second_lock : (Threads.next_event (Threads.next_event (threads_init 10 8)).0).1 ≡ some 1
unfolding Threads.next_event threads_init
second_lock = refl

no_locks : (Threads.next_event (threads_init 10 0)).1 ≡ none
unfolding Threads.next_event threads_init
no_locks = refl

one_yield : Threads.execute_event 1 3 ≡ lock 3 ∷ yield_thread ∷ unlock 3 ∷ []
unfolding Threads.execute_event
one_yield = refl

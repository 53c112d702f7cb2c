-- ===== src/Bench/Threads.antt =====
-- src/tests/threads/sb_threads.c: each event locks and unlocks one of the locks several times.
use sysbench.Prelude.{
  ℕ, zero, suc, ◌+◌, ◌%◌, Option, none, some, List, [], ◌∷◌, u32, ◌==◌, if◌then◌else◌,
}

-- The static variables
pub record Threads : Type 0 where
  pub thread_yields : ℕ
  pub thread_locks : ℕ
  pub req_performed : ℕ

-- threads_init, with the values of the options
unfoldable pub threads_init : ℕ → ℕ → Threads
threads_init yields locks = record {
  thread_yields = yields;
  thread_locks = locks;
  req_performed = 0;
}

-- threads_next_event: the number of the lock, from an atomic fetch-and-add; with no lock at all
-- the remainder is by 0.
unfoldable pub next_event : Threads → Threads × Option ℕ
next_event t = (
  record t { req_performed = u32 (t.req_performed + 1) },
  if t.thread_locks == 0 then none else some (t.req_performed % t.thread_locks),
)

pub data LockStep : Type 0 where
  lock : ℕ → LockStep
  yield_thread : LockStep
  unlock : ℕ → LockStep

-- threads_execute_event: the calls of one event
unfoldable pub execute_event : ℕ → ℕ → List LockStep
execute_event zero n = []
execute_event (suc yields) n = lock n ∷ yield_thread ∷ unlock n ∷ execute_event yields n

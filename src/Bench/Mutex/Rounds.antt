-- ===== src/Bench/Mutex/Rounds.antt =====
-- How often the loop of mutex_execute_event (src/tests/mutex/sb_mutex.c) runs.
use sysbench.Prelude.{
  ℕ, zero, suc, ◌+◌, ◌-◌, ◌≤◌, ◌<◌, ◌≡◌, refl, some, List, [], ◌∷◌, arith, u32, u32_mod, sub32, ltb,
  ◌==◌, if◌then◌else◌, length, Bool-cases, inl, inr,
}
use sysbench.Bench.Mutex.{Done, execute_from, execute_event}

-- The rounds of a do-while loop that counts an unsigned int down to 0.
abbrev pub rounds : ℕ → ℕ
rounds nlocks = if nlocks == 0 then u32_mod else nlocks

abbrev pub AllBelow : ℕ → List ℕ → Type 0
AllBelow n [] = Unit {0}
AllBelow n (x ∷ xs) = (x < n) × AllBelow n xs

-- What `n` rounds from `d` leave.
record Ran (mutex_num n : ℕ) (d e : Done) : Type 0 where
  count : length e.taken ≡ length d.taken + n
  global : u32 e.global_var ≡ u32 (d.global_var + n)
  word : e.global_var < u32_mod
  locks : AllBelow mutex_num e.taken

module _ (random : ℕ → ℕ) (mutex_num : ℕ) (in_range : (k : ℕ) → random k < mutex_num) where
  execute_from-Ran :
      (fuel k nlocks n : ℕ) (d : Done)
      → nlocks < u32_mod
      → n ≡ rounds nlocks
      → n ≤ fuel
      → AllBelow mutex_num d.taken
      → (e : Done) × (execute_from random fuel k nlocks d ≡ some e) × Ran mutex_num n d e
  unfolding execute_from
  execute_from-Ran zero k nlocks n d word rnd enough locks = absurd (ground arith)
  execute_from-Ran (suc fuel) k nlocks n d word rnd enough locks =
      let d' : Done = record { global_var = u32 (d.global_var + 1); taken = random k ∷ d.taken } in
      elim (Bool-cases (ltb 0 (sub32 nlocks 1))) [
        | inl more ↦
            let (e, run, ran) =
              execute_from-Ran fuel (suc k) (sub32 nlocks 1) (n - 1) d' (omega arith) (ground arith)
                (ground arith) (in_range k, locks) in
            (
              e,
              rw more run,
              record {
                count = ground (arith, ran.count);
                global = ground (arith, ran.global);
                word = ran.word;
                locks = ran.locks;
              },
            )
        | inr last ↦ (
          d',
          rw last refl,
          record {
            count = ground arith;
            global = ground arith;
            word = omega arith;
            locks = (in_range k, locks);
          },
        )
      ]

-- The loop of mutex_execute_event ends, for every number of locks, when it may run 2 ^ 32 rounds:
-- it takes as many locks as the request says, each one of the mutexes, and adds their number to
-- global_var. For a request of no lock it takes 2 ^ 32 locks, since the number is counted down
-- before it is compared with 0.
pub execute_event-rounds :
    (random : ℕ → ℕ) (mutex_num nlocks global_var fuel : ℕ)
    → ((k : ℕ) → random k < mutex_num)
    → nlocks < u32_mod
    → u32_mod ≤ fuel
    → (e : Done) × (execute_event random fuel nlocks global_var ≡ some e)
      × (length e.taken ≡ rounds nlocks)
      × (e.global_var ≡ u32 (global_var + rounds nlocks))
      × AllBelow mutex_num e.taken
unfolding execute_event
execute_event-rounds random mutex_num nlocks global_var fuel in_range word enough =
    let (e, run, ran) =
      execute_from-Ran random mutex_num in_range fuel 0 nlocks (rounds nlocks)
        (record { global_var = global_var; taken = [] }) word refl (ground arith) tt in
    (e, run, omega (arith, ran.count), omega (arith, ran.global, ran.word), ran.locks)

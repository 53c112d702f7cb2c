-- ===== src/Bench/Memory/Tests.antt =====
-- A memory test of two threads (src/tests/memory/sb_memory.c).
use sysbench.Prelude.{◌≡◌, refl, false, none, some, [], ◌∷◌}
use sysbench.Prelude.Text.{codes}
use sysbench.Bench.Memory.{Memory, local, write, memory_init, seq_write}

abbrev four_words : Memory
four_words = record {
  block_size = 32;
  total_size = 1000;
  scope = local;
  oper = write;
  access_rnd = false;
  max_offset = 3;
  buffers = (0 ∷ 0 ∷ 0 ∷ 0 ∷ []) ∷ (0 ∷ 0 ∷ 0 ∷ 0 ∷ []) ∷ [];
  thread_counters = 15 ∷ 15 ∷ [];
}

initialised : memory_init 2 32 1000 (codes "local") (codes "write") (codes "seq") ≡ some four_words
unfolding memory_init
initialised = refl

not_a_power : memory_init 2 24 1000 (codes "local") (codes "write") (codes "seq") ≡ none
unfolding memory_init
not_a_power = refl

the_last_word : seq_write four_words 7 (0 ∷ 0 ∷ 0 ∷ 0 ∷ []) ≡ 7 ∷ 7 ∷ 7 ∷ 0 ∷ []
unfolding seq_write
the_last_word = refl

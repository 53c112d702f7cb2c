-- ===== src/Bench/Memory.antt =====
-- src/tests/memory/sb_memory.c: a block of memory is read or written in words of 8 bytes. The
-- values of the options are arguments, and allocation succeeds.
pub mod Transfer
mod Tests
use Prim.Native.Nat.{bit_and}
use sysbench.Prelude.{
  ℕ, zero, suc, ◌+◌, ◌-◌, ◌*◌, ◌/◌, ◌^◌, Bool, true, false, ◌&&◌, ◌||◌, not, Option, none, some,
  List, [], ◌∷◌, u64, sub64, ltb, leb, ◌==◌, if◌then◌else◌, get_or, set, replicate, ◌>>=◌,
}
use sysbench.Prelude.Text.{Str, codes, str_eq}

pub data Scope : Type 0 where
  global : Scope
  local : Scope

pub data Oper : Type 0 where
  none_oper read write : Oper

-- The static variables. Local buffers stand in a list by thread; a global one is the only element.
pub record Memory : Type 0 where
  pub block_size : ℕ
  pub total_size : ℕ
  pub scope : Scope
  pub oper : Oper
  pub access_rnd : Bool
  pub max_offset : ℕ
  pub buffers : List (List ℕ)
  pub thread_counters : List ℕ

-- SIZEOF_SIZE_T
abbrev pub sizeof_size_t : ℕ
sizeof_size_t = 8

-- The check of --memory-block-size, an ssize_t: a size of 2 ^ 63 or more is negative.
unfoldable pub is_block_size : ℕ → Bool
is_block_size n = ltb n (2 ^ 63) && leb sizeof_size_t n && bit_and n (n - 1) == 0

unfoldable pub scope_of : Str → Option Scope
scope_of s =
    if str_eq s (codes "global")
    then some global
    else if str_eq s (codes "local")
    then some local
    else none

unfoldable pub oper_of : Str → Option Oper
oper_of s =
    if str_eq s (codes "write")
    then some write
    else if str_eq s (codes "read")
    then some read
    else if str_eq s (codes "none")
    then some none_oper
    else none

unfoldable pub access_of : Str → Option Bool
access_of s =
    if str_eq s (codes "seq")
    then some false
    else if str_eq s (codes "rnd")
    then some true
    else none

unfoldable pub buffers_of : Scope → ℕ → ℕ → List (List ℕ)
buffers_of global threads words = replicate 1 (replicate words 0)
buffers_of local threads words = replicate threads (replicate words 0)

-- memory_init, of a total size below 2 ^ 63
unfoldable pub memory_init : ℕ → ℕ → ℕ → Str → Str → Str → Option Memory
unfolding is_block_size scope_of oper_of access_of buffers_of
memory_init threads block_size total_size scope oper access =
    if not (is_block_size block_size) then none else do
      sc ← scope_of scope
      op ← oper_of oper
      rnd ← access_of access
      some (record {
        block_size = block_size;
        total_size = total_size;
        scope = sc;
        oper = op;
        access_rnd = rnd;
        max_offset = block_size / sizeof_size_t - 1;
        buffers = buffers_of sc threads (block_size / sizeof_size_t);
        thread_counters = replicate threads (total_size / block_size / threads);
      })

-- memory_next_event: whether there is an event; `thread_counters[tid]--` wraps.
unfoldable pub next_event : ℕ → Memory → Memory × Bool
next_event tid m =
    let counter = get_or m.thread_counters tid 0 in
    if ltb 0 m.total_size
    then (
      record m { thread_counters = set m.thread_counters tid (sub64 counter 1) },
      not (counter == 0),
    )
    else (m, true)

-- The words that event_seq_none visits: from 0 while the offset is at most max_offset.
unfoldable pub seq_none_from : ℕ → ℕ → List ℕ
seq_none_from zero i = []
seq_none_from (suc rounds) i = i ∷ seq_none_from rounds (suc i)

unfoldable pub seq_none : Memory → List ℕ
unfolding seq_none_from
seq_none m = seq_none_from (m.max_offset + 1) 0

-- event_seq_read: the words that it loads, from 0 while the offset is below max_offset.
unfoldable pub seq_read_from : List ℕ → ℕ → ℕ → List ℕ
seq_read_from buf zero i = []
seq_read_from buf (suc rounds) i = get_or buf i 0 ∷ seq_read_from buf rounds (suc i)

unfoldable pub seq_read : Memory → List ℕ → List ℕ
unfolding seq_read_from
seq_read m buf = seq_read_from buf m.max_offset 0

-- event_seq_write
unfoldable pub seq_write_from : ℕ → ℕ → ℕ → List ℕ → List ℕ
seq_write_from tid zero i buf = buf
seq_write_from tid (suc rounds) i buf = seq_write_from tid rounds (suc i) (set buf i tid)

unfoldable pub seq_write : Memory → ℕ → List ℕ → List ℕ
unfolding seq_write_from
seq_write m tid buf = seq_write_from tid m.max_offset 0 buf

-- event_rnd_read and event_rnd_write, on the offsets that sb_rand_default(0, max_offset) returns,
-- max_offset + 1 of them
unfoldable pub rnd_read : List ℕ → List ℕ → List ℕ
rnd_read buf [] = []
rnd_read buf (offset ∷ offsets) = get_or buf offset 0 ∷ rnd_read buf offsets

unfoldable pub rnd_write : List ℕ → ℕ → List ℕ → List ℕ
rnd_write buf i [] = buf
rnd_write buf i (offset ∷ offsets) = rnd_write (set buf offset i) (suc i) offsets

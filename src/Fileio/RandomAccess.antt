-- ===== src/Fileio/RandomAccess.antt =====
-- src/tests/fileio/sb_fileio.c: where random requests go.
use sysbench.Prelude.{
  ℕ, suc, ◌+◌, ◌-◌, ◌*◌, ◌/◌, ◌%◌, ◌^◌, ◌≤◌, ◌<◌, ◌≡◌, Bool, true, false, ◌&&◌, ◌⊎◌, Option, none,
  some, List, arith, ltb,
}
use native.Mathlib.Nat.{mod-lt, div-lt_iff_lt-mul, le-div_iff_mul-le}
use sysbench.Random.{Rng}
use sysbench.Fileio.{
  fsync_op, Seen, Store, FileRequest, Config, Blocks, place_of, draw, in_use, check_request,
  min_size,
}

-- A request for a block of one file.
pub record IsBlock (cfg : Config) (r : FileRequest) : Type 0 where
  pub file : r.file_id < cfg.num_files
  pub some_bytes : 0 < r.size
  pub bytes : r.pos + r.size ≤ cfg.file_size

-- The options of a test whose files make up the total size, which a double holds exactly.
pub record IsEven (cfg : Config) : Type 0 where
  pub some_block : 0 < cfg.file_block_size
  pub some_byte : 0 < cfg.file_size
  pub some_file : 0 < cfg.num_files
  pub even : cfg.total_size ≡ cfg.num_files * cfg.file_size
  pub exact : cfg.total_size < 2 ^ 53

-- A request that file_execute_event accepts, for a block that no other thread uses, if the blocks
-- are validated, as they are seen in one round; only with validation may the fuel run out.
abbrev pub Placed : Config → ℕ → (ℕ → Blocks) → Option (FileRequest × Rng) → Type 0
Placed cfg thread_id blocks none = cfg.validate ≡ true
Placed cfg thread_id blocks (some p) =
    IsBlock cfg p.0
    × (check_request cfg p.0 ≡ some p.0.file_id)
    × ((n : ℕ) × ((cfg.validate && in_use thread_id 0 p.0 (blocks n)) ≡ false))

-- Whether the draw has to be repeated.
abbrev repeats : Config → ℕ → Blocks → Rng → Bool
repeats cfg thread_id blocks rng =
    cfg.validate && in_use thread_id 0 (place_of cfg (draw cfg rng).0) blocks

-- Bytes after the last file, which the total size has when it is not a multiple of the number of
-- files: a draw there gives the number of files as the file's number, and file_execute_event
-- accepts it as an index.
pub place_of-past :
    (cfg : Config) (tmppos : ℕ)
    → 0 < cfg.file_size
    → let start = tmppos - tmppos % cfg.file_block_size in
      cfg.num_files * cfg.file_size ≤ start
      → start < suc cfg.num_files * cfg.file_size
      → let r = place_of cfg tmppos in
        (r.file_id ≡ cfg.num_files) × (check_request cfg r ≡ some cfg.num_files)
unfolding place_of check_request
place_of-past cfg tmppos some_byte low high =
    let start = tmppos - tmppos % cfg.file_block_size in
    let inside : start % cfg.file_size < cfg.file_size = mod-lt start some_byte in
    let above : cfg.num_files ≤ start / cfg.file_size = (le-div_iff_mul-le some_byte).1 low in
    let below : start / cfg.file_size < suc cfg.num_files = (div-lt_iff_lt-mul some_byte).1 high in
    let file : start / cfg.file_size ≡ cfg.num_files = omega arith in
    let size = min_size cfg.file_block_size (cfg.file_size - start % cfg.file_size) in
    let index : ltb cfg.num_files cfg.num_files ≡ false = ground arith in
    let bytes : ltb cfg.file_size (start % cfg.file_size + size) ≡ false = ground arith in
    (file, rw (file, index, bytes))

-- What a thread gets: a request for an existing file and within its size, which file_execute_event
-- accepts, and which is an fsync, or is for a block that no other thread was seen to use in one
-- round, if the blocks are validated; only with validation may the fuel run out before there is one.
abbrev pub Granted : Config → ℕ → Seen → Option (FileRequest × List Store × Rng) → Type 0
Granted cfg thread_id seen none = cfg.validate ≡ true
Granted cfg thread_id seen (some p) =
    (p.0.file_id < cfg.num_files)
    × (p.0.pos + p.0.size ≤ cfg.file_size)
    × (check_request cfg p.0 ≡ some p.0.file_id)
    × ((p.0.operation ≡ fsync_op)
        ⊎ ((n : ℕ) × ((cfg.validate && in_use thread_id 0 p.0 (seen.blocks n)) ≡ false)))

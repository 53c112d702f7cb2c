-- ===== src/Fileio.antt =====
-- src/tests/fileio/sb_fileio.c: the requests that the threads get. The test's variables are a state
-- that file_get_seq_request changes in one step, under the mutex. file_get_rnd_request does not take
-- it: what it reads of the variables is an argument, and what it writes is kept in order. The
-- options are a record. A double between 0 and the total size is the number of its 2^52nd parts.
pub mod Sequential
pub mod Fsync
pub mod RandomAccess
mod Tests
use sysbench.Prelude.{
  ℕ, zero, suc, ◌+◌, ◌-◌, ◌*◌, ◌/◌, ◌%◌, ◌^◌, Bool, true, false, not, ◌&&◌, Option, none, some,
  List, [], ◌∷◌, if◌then◌else◌, ◌==◌, ltb, leb, u32, ◌>>=◌,
}
use sysbench.Prelude.Float.{Double}
use sysbench.Prelude.Round.{round}
use sysbench.Random.{Rng, uniform_double}

-- file_test_mode_t
pub data Mode : Type 0 where
  read write rewrite rnd_read rnd_write rnd_rw mixed : Mode

-- sb_file_op_t
pub data FileOp : Type 0 where
  null_op read_op write_op fsync_op : FileOp

-- sb_file_request_t
pub record FileRequest : Type 0 where
  pub file_id : ℕ
  pub pos : ℕ
  pub size : ℕ
  pub operation : FileOp

-- The test options that the requests depend on.
pub record Config : Type 0 where
  pub test_mode : Mode
  pub num_files : ℕ
  pub total_size : ℕ
  pub file_size : ℕ
  pub file_block_size : ℕ
  pub file_request_size : ℕ
  pub file_fsync_freq : ℕ
  pub validate : Bool

-- The variables of the test.
pub record Vars : Type 0 where
  pub position : ℕ
  pub current_file : ℕ
  pub fsynced_file : ℕ
  pub is_dirty : Bool
  pub req_performed : ℕ
  pub prev_req : FileRequest

abbrev no_request : FileRequest
no_request = record { file_id = 0; pos = 0; size = 0; operation = null_op }

-- init_vars; prev_req is set with validation only.
unfoldable pub init_vars : Config → FileRequest → Vars
init_vars cfg prev_req = record {
  position = 0;
  current_file = 0;
  fsynced_file = 0;
  is_dirty = false;
  req_performed = 0;
  prev_req = if cfg.validate then no_request else prev_req;
}

-- FILE_OP_TYPE_WRITE for the modes that write in order
unfoldable pub seq_operation : Mode → FileOp
seq_operation write = write_op
seq_operation rewrite = write_op
seq_operation _ = read_op

abbrev pub is_write : FileOp → Bool
is_write write_op = true
is_write _ = false

-- The request to fsync the next file, and the variables after it.
unfoldable pub fsync_request : Config → Vars → FileRequest × Vars
fsync_request cfg v =
    let last = suc v.fsynced_file == cfg.num_files in
    (
      record { file_id = v.fsynced_file; pos = 0; size = 0; operation = fsync_op },
      record v {
        fsynced_file = if last then 0 else suc v.fsynced_file;
        is_dirty = if last then false else v.is_dirty;
      },
    )

-- if (current_file == num_files) { position = 0; current_file = 0; }
unfoldable pub rewind : Config → Vars → Vars
rewind cfg v =
    if v.current_file == cfg.num_files then record v { position = 0; current_file = 0 } else v

-- if (position == file_size) { current_file++; position = 0; }
unfoldable pub scroll : Config → Vars → Vars
scroll cfg v =
    if v.position == cfg.file_size
    then record v { position = 0; current_file = suc v.current_file }
    else v

-- SB_MIN(file_request_size, file_size - position)
abbrev pub min_size : ℕ → ℕ → ℕ
min_size a b = if ltb a b then a else b

-- The rest of file_get_seq_request, on the variables after the rewinding.
unfoldable pub next_block : Config → FileOp → Vars → FileRequest × Vars
unfolding scroll
next_block cfg operation v =
    let size = min_size cfg.file_request_size (cfg.file_size - v.position) in
    let request : FileRequest = record {
      file_id = v.current_file;
      pos = v.position;
      size = size;
      operation = operation;
    } in
    (
      request,
      scroll cfg (record v {
        position = v.position + size;
        prev_req = if cfg.validate then request else v.prev_req;
      }),
    )

-- It is time to fsync the files.
unfoldable pub fsync_due : Config → Vars → Bool
fsync_due cfg v =
    not (cfg.file_fsync_freq == 0) && v.is_dirty && v.req_performed % cfg.file_fsync_freq == 0

-- file_get_seq_request
unfoldable pub get_seq_request : Config → Vars → FileRequest × Vars
unfolding seq_operation fsync_request rewind next_block fsync_due
get_seq_request cfg v =
    let operation = seq_operation cfg.test_mode in
    if is_write operation && fsync_due cfg v
    then fsync_request cfg v
    else next_block cfg operation (
        rewind cfg (record v {
          req_performed = u32 (v.req_performed + 1);
          is_dirty = if is_write operation then true else v.is_dirty;
        }))

-- The place of a random request: tmppos is rounded down to a block.
unfoldable pub place_of : Config → ℕ → FileRequest
place_of cfg tmppos =
    let start = tmppos - tmppos % cfg.file_block_size in
    let pos = start % cfg.file_size in
    record {
      file_id = start / cfg.file_size;
      pos = pos;
      size = min_size cfg.file_block_size (cfg.file_size - pos);
      operation = read_op;
    }

-- (long long) (sb_rand_uniform_double() * total_size): the total size is converted to double, and
-- the product is rounded; it is in the range of `round` when the total size is at most 2^53.
unfoldable pub draw : Config → Rng → ℕ × Rng
draw cfg rng =
    let (x, rng') = uniform_double rng in (round (x * round cfg.total_size) / 2 ^ 52, rng')

-- The file and the position of the block that each thread uses.
abbrev pub Blocks : Type 0
Blocks = List (ℕ × ℕ)

-- Another thread than `thread_id` uses the block; `i` is the first thread of the list.
unfoldable pub in_use : ℕ → ℕ → FileRequest → Blocks → Bool
in_use thread_id i request [] = false
in_use thread_id i request (b ∷ blocks) =
    let rest = in_use thread_id (suc i) request blocks in
    if not (i == thread_id) && b.0 == request.file_id && b.1 == request.pos then true else rest

-- The part of file_get_rnd_request from `retry` on, on fuel: none if the last draw still has to be
-- repeated. The blocks are those that it sees in each round, one round after the other.
unfoldable pub retry : Config → ℕ → (ℕ → Blocks) → ℕ → Rng → Option (FileRequest × Rng)
unfolding in_use place_of draw
retry cfg thread_id blocks zero rng = none
retry cfg thread_id blocks (suc fuel) rng =
    let (tmppos, rng') = draw cfg rng in
    let request = place_of cfg tmppos in
    let again = retry cfg thread_id (λ n. blocks (suc n)) fuel rng' in
    if cfg.validate && in_use thread_id 0 request (blocks 0) then again else some (request, rng')

-- What file_get_rnd_request reads of the shared variables, each time that it reads one, and the
-- blocks of the other threads in each round; other threads may change them in between.
pub record Seen : Type 0 where
  pub dirty : Bool
  pub performed : ℕ
  pub synced : ℕ
  pub synced_to_count : ℕ
  pub synced_to_compare : ℕ
  pub blocks : ℕ → Blocks
  pub performed_to_count : ℕ

-- What it writes to them.
pub data Store : Type 0 where
  sets_fsynced_file : ℕ → Store
  sets_is_dirty : Bool → Store
  sets_block : ℕ × ℕ → Store
  sets_req_performed : ℕ → Store

module _ (F : Double) where
  -- The mode of a request: with rndrw it depends on the reads and writes that the thread has done.
  rnd_mode : Mode → F.D → ℕ → ℕ → Mode
  rnd_mode rnd_rw ratio reads writes =
      let more = λ (n : ℕ). F.add (F.of_nat n) (F.of_nat 1) in
      if F.lt (F.div (more reads) (more writes)) ratio then rnd_read else rnd_write
  rnd_mode mode ratio reads writes = mode

  rnd_operation : Mode → FileOp
  rnd_operation rnd_write = write_op
  rnd_operation _ = read_op

  -- file_get_rnd_request, `reads` and `writes` being the thread's counters.
  unfoldable pub get_rnd_request :
      Config → F.D → ℕ → ℕ → ℕ → ℕ → Seen → Rng → Option (FileRequest × List Store × Rng)
  unfolding rnd_mode rnd_operation retry
  get_rnd_request cfg ratio reads writes thread_id fuel seen rng =
      let operation = rnd_operation (rnd_mode cfg.test_mode ratio reads writes) in
      if not (cfg.file_fsync_freq == 0) && seen.dirty && seen.performed % cfg.file_fsync_freq == 0
      then some (
        record { file_id = seen.synced; pos = 0; size = 0; operation = fsync_op },
        sets_fsynced_file (suc seen.synced_to_count)
            ∷ (if seen.synced_to_compare == cfg.num_files
                then sets_fsynced_file 0 ∷ sets_is_dirty false ∷ []
                else []),
        rng,
      )
      else (retry cfg thread_id seen.blocks fuel rng >>= λ p. some (
        record p.0 { operation = operation },
        sets_block (p.0.file_id, p.0.pos)
            ∷ sets_req_performed (u32 (seen.performed_to_count + 1))
            ∷ (if is_write operation then sets_is_dirty true ∷ [] else []),
        p.1,
      ))

-- The checks of file_execute_event before the operation: none is the return of 1, otherwise the
-- index into the array of files.
unfoldable pub check_request : Config → FileRequest → Option ℕ
check_request cfg request =
    if ltb cfg.num_files request.file_id
    then none
    else if ltb cfg.file_size (request.pos + request.size)
    then none
    else some request.file_id

-- ===== src/Fileio/Sequential.antt =====
-- src/tests/fileio/sb_fileio.c: the sequential requests as a cursor over the files.
use sysbench.Prelude.{
  ℕ, suc, ◌+◌, ◌-◌, ◌*◌, ◌≤◌, ◌<◌, ◌≡◌, ◌∙◌, refl, Bool, true, false, ◌&&◌, some, arith,
  if◌then◌else◌, ◌==◌, ==_iff, ltb, inl, inr, Bool-cases, u32,
}
use sysbench.Fileio.{
  FileOp, fsync_op, FileRequest, Config, Vars, seq_operation, is_write, fsync_request, rewind,
  scroll, min_size, next_block, fsync_due, get_seq_request, check_request,
}

-- There is something to read or write.
pub record IsUsable (cfg : Config) : Type 0 where
  pub some_file : 0 < cfg.num_files
  pub some_byte : 0 < cfg.file_size
  pub some_block : 0 < cfg.file_request_size

-- The position is within a file; only after the last file the file's number is out of range.
pub record IsValid (cfg : Config) (v : Vars) : Type 0 where
  pub inside : v.position < cfg.file_size
  pub file : v.current_file ≤ cfg.num_files
  pub synced : v.fsynced_file < cfg.num_files

-- The bytes of the files before the next request, in the order of the files.
abbrev pub cursor : Config → Vars → ℕ
cursor cfg v = v.current_file * cfg.file_size + v.position

abbrev pub offset : Config → FileRequest → ℕ
offset cfg r = r.file_id * cfg.file_size + r.pos

-- A request for bytes of one file.
pub record IsWithin (cfg : Config) (r : FileRequest) : Type 0 where
  pub file : r.file_id < cfg.num_files
  pub some_bytes : 0 < r.size
  pub bytes : r.pos + r.size ≤ cfg.file_size

next_file : (c fs : ℕ) → suc c * fs + 0 ≡ c * fs + fs
next_file c fs = grind arith

min_size_lem : (a b : ℕ) → 0 < a → 0 < b → (0 < min_size a b) × (min_size a b ≤ b)
min_size_lem a b ha hb = ground arith

-- What scroll makes of a position up to the end of the file.
scroll-IsValid :
    (cfg : Config) (v : Vars)
    → IsUsable cfg
    → v.position ≤ cfg.file_size
    → v.current_file < cfg.num_files
    → v.fsynced_file < cfg.num_files
    → IsValid cfg (scroll cfg v) × (cursor cfg (scroll cfg v) ≡ cursor cfg v)
unfolding scroll
scroll-IsValid cfg v u inside file synced = elim (Bool-cases (v.position == cfg.file_size)) [
  | inl end ↦
      let at_end : v.position ≡ cfg.file_size = (==_iff v.position cfg.file_size).0 end in
      rw end (
        record { inside = u.some_byte; file = file; synced = synced },
        omega (arith, next_file v.current_file cfg.file_size, at_end),
      )
  | inr before ↦
      rw before (record { inside = ground arith; file = omega arith; synced = synced }, refl)
]

next_block-Sweeps :
    (cfg : Config) (operation : FileOp) (v : Vars)
    → IsUsable cfg
    → v.position < cfg.file_size
    → v.current_file < cfg.num_files
    → v.fsynced_file < cfg.num_files
    → let (r, v') = next_block cfg operation v in
      IsValid cfg v'
      × IsWithin cfg r
      × (offset cfg r ≡ cursor cfg v)
      × (cursor cfg v' ≡ offset cfg r + r.size)
unfolding next_block
next_block-Sweeps cfg operation v u inside file synced =
    let size = min_size cfg.file_request_size (cfg.file_size - v.position) in
    let (some_bytes, bytes) =
      min_size_lem cfg.file_request_size (cfg.file_size - v.position) u.some_block (omega arith) in
    let (valid, same) = scroll-IsValid cfg _ u (omega (arith, bytes)) file synced in
    (
      valid,
      record { file = file; some_bytes = some_bytes; bytes = omega (arith, bytes) },
      refl,
      omega (arith, same),
    )

-- What is left to sweep over after the last file is everything.
abbrev pub next_offset : Config → Vars → ℕ
next_offset cfg v = if v.current_file == cfg.num_files then 0 else cursor cfg v

-- An fsync of the file that is due, or the bytes from the cursor on, which file_execute_event
-- accepts.
abbrev pub Sweeps : Config → Vars → FileRequest × Vars → Bool → Type 0
Sweeps cfg v p true =
    (p.0.file_id ≡ v.fsynced_file) × (p.0.operation ≡ fsync_op) × (cursor cfg p.1 ≡ cursor cfg v)
Sweeps cfg v p false =
    IsWithin cfg p.0
    × (offset cfg p.0 ≡ next_offset cfg v)
    × (cursor cfg p.1 ≡ offset cfg p.0 + p.0.size)
    × (check_request cfg p.0 ≡ some p.0.file_id)

-- A write while it is time to fsync.
abbrev pub syncs : Config → Vars → Bool
syncs cfg v = is_write (seq_operation cfg.test_mode) && fsync_due cfg v

check_request-IsWithin :
    (cfg : Config) (r : FileRequest) → IsWithin cfg r → check_request cfg r ≡ some r.file_id
unfolding check_request
check_request-IsWithin cfg r w =
    let file : ltb cfg.num_files r.file_id ≡ false = ground (arith, w.file) in
    let bytes : ltb cfg.file_size (r.pos + r.size) ≡ false = ground (arith, w.bytes) in
    rw (file, bytes)

fsync_request-IsValid :
    (cfg : Config) (v : Vars) → IsValid cfg v → IsValid cfg (fsync_request cfg v).1
unfolding fsync_request
fsync_request-IsValid cfg v valid = record {
  inside = valid.inside;
  file = valid.file;
  synced = ground (arith, valid.synced);
}

-- The variables once the files are rewound.
rewind_lem :
    (cfg : Config) (v : Vars)
    → IsUsable cfg
    → IsValid cfg v
    → ((rewind cfg v).position < cfg.file_size)
      × ((rewind cfg v).current_file < cfg.num_files)
      × ((rewind cfg v).fsynced_file ≡ v.fsynced_file)
      × (cursor cfg (rewind cfg v) ≡ next_offset cfg v)
unfolding rewind
rewind_lem cfg v u valid = elim (Bool-cases (v.current_file == cfg.num_files)) [
  | inl done ↦ rw done (u.some_byte, u.some_file, refl, nothing cfg.file_size)
  | inr more ↦ rw more (valid.inside, ground (arith, valid.file), refl, refl)
]
  where
    nothing : (fs : ℕ) → 0 * fs + 0 ≡ 0
    nothing fs = omega arith

-- With a file, a byte in each file and a request size above 0, file_get_seq_request keeps the
-- variables valid. When an fsync is due it asks for the next file to fsync and does not move;
-- otherwise its bytes lie within one file, begin where the last ones ended, or at the first file
-- after the last one, file_execute_event accepts them, and the cursor moves past them.
pub get_seq_request-Sweeps :
    (cfg : Config) (v : Vars)
    → IsUsable cfg
    → IsValid cfg v
    → IsValid cfg (get_seq_request cfg v).1 × Sweeps cfg v (get_seq_request cfg v) (syncs cfg v)
unfolding get_seq_request
get_seq_request-Sweeps cfg v u valid = elim (Bool-cases (syncs cfg v)) [
  | inl due ↦ rw due (fsync_request-IsValid cfg v valid, unfold fsync_request in (refl, refl, refl))
  | inr not_due ↦
      let w : Vars = record v {
        req_performed = u32 (v.req_performed + 1);
        is_dirty = if is_write (seq_operation cfg.test_mode) then true else v.is_dirty;
      } in
      let valid' : IsValid cfg w = record {
        inside = valid.inside;
        file = valid.file;
        synced = valid.synced;
      } in
      let (inside, file, same, from) = rewind_lem cfg w u valid' in
      let (after, within, begin, end) =
        next_block-Sweeps cfg (seq_operation cfg.test_mode) (rewind cfg w) u inside file
          (rw same valid.synced) in
      rw not_due (after, (within, begin ∙ from, end, check_request-IsWithin cfg _ within))
]

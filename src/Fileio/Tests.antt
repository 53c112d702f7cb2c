-- ===== src/Fileio/Tests.antt =====
-- Requests for files at concrete options.
use sysbench.Prelude.{ℕ, ◌≡◌, refl, true, false, [], ◌∷◌, arith}
use sysbench.Random.{Rng}
use sysbench.Fileio.{
  Mode, write, Config, Vars, Seen, FileRequest, init_vars, get_seq_request, fsync_due, read_op,
  seq_operation,
}
use sysbench.Fileio.Sequential.{IsUsable, IsValid, Sweeps, syncs, get_seq_request-Sweeps}
use sysbench.Fileio.Fsync.{requests, fsyncs, requests-fsyncs}

-- Three files, of 33 bytes, with blocks of one byte and requests of 32.
abbrev config : Mode → ℕ → Config
config mode total_size = record {
  test_mode = mode;
  num_files = 3;
  total_size = total_size;
  file_size = 33;
  file_block_size = 1;
  file_request_size = 32;
  file_fsync_freq = 2;
  validate = false;
}

abbrev nothing : FileRequest
nothing = record { file_id = 0; pos = 0; size = 0; operation = read_op }

abbrev fresh : Vars
fresh = init_vars (config write 99) nothing

config-IsUsable : IsUsable (config write 99)
config-IsUsable = record {
  some_file = omega arith;
  some_byte = omega arith;
  some_block = omega arith;
}

fresh-IsValid : IsValid (config write 99) fresh
unfolding init_vars
fresh-IsValid = record { inside = omega arith; file = omega arith; synced = omega arith }

get_seq_request-Sweeps_example :
    IsValid (config write 99) (get_seq_request (config write 99) fresh).1
    × Sweeps
        (config write 99)
        fresh
        (get_seq_request (config write 99) fresh)
        (syncs (config write 99) fresh)
get_seq_request-Sweeps_example =
    get_seq_request-Sweeps (config write 99) fresh config-IsUsable fresh-IsValid

-- After two writes.
abbrev dirty : Vars
dirty = record fresh { is_dirty = true; req_performed = 2 }

requests-fsyncs_example :
    requests 3 (config write 99) dirty ≡ (fsyncs 0 3, record dirty { is_dirty = false })
requests-fsyncs_example =
    requests-fsyncs (config write 99) dirty (omega arith) (unfold seq_operation init_vars in refl)
      (unfold fsync_due init_vars in refl) (unfold seq_operation init_vars in refl)

abbrev seed : Rng
seed = record { s0 = 12345; s1 = 67890 }

-- The reads of a thread when two blocks are used.
abbrev reads_once : Seen
reads_once = record {
  dirty = true;
  performed = 1;
  synced = 0;
  synced_to_count = 0;
  synced_to_compare = 1;
  blocks = λ n. (0, 0) ∷ (1, n) ∷ [];
  performed_to_count = 1;
}

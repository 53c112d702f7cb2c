-- ===== src/Fileio/Fsync.antt =====
-- src/tests/fileio/sb_fileio.c: the requests from the time when an fsync is due.
use sysbench.Prelude.{
  ℕ, zero, suc, ◌+◌, ◌<◌, ◌≡◌, ◌∙◌, sym, ap, subst, ◌-◌, true, false, List, [], ◌∷◌, arith, ◌==◌,
}
use sysbench.Fileio.{
  FileRequest, fsync_op, Config, Vars, seq_operation, is_write, fsync_request, fsync_due,
  get_seq_request,
}

-- The next requests, and the variables after them.
abbrev pub requests : ℕ → Config → Vars → List FileRequest × Vars
requests zero cfg v = ([], v)
requests (suc n) cfg v =
    let (r, v') = get_seq_request cfg v in let (rs, v'') = requests n cfg v' in (r ∷ rs, v'')

-- Requests to fsync as many files, from a file on.
abbrev pub fsyncs : ℕ → ℕ → List FileRequest
fsyncs k zero = []
fsyncs k (suc n) =
    record { file_id = k; pos = 0; size = 0; operation = fsync_op } ∷ fsyncs (suc k) n

module _ (cfg : Config) (v : Vars) (writes : is_write (seq_operation cfg.test_mode) ≡ true)
    (due : fsync_due cfg v ≡ true) where
  one_fsync :
      (k : ℕ)
      → get_seq_request cfg (record v { fsynced_file = k })
        ≡ fsync_request cfg (record v { fsynced_file = k })
  unfolding get_seq_request fsync_due
  one_fsync k = rw (writes, due)

  mid_fsync :
      (k : ℕ)
      → (suc k == cfg.num_files) ≡ false
      → get_seq_request cfg (record v { fsynced_file = k }) ≡ (
        record { file_id = k; pos = 0; size = 0; operation = fsync_op },
        record v { fsynced_file = suc k },
      )
  unfolding fsync_request
  mid_fsync k more = one_fsync k ∙ rw more

  last_fsync :
      (k : ℕ)
      → (suc k == cfg.num_files) ≡ true
      → get_seq_request cfg (record v { fsynced_file = k }) ≡ (
        record { file_id = k; pos = 0; size = 0; operation = fsync_op },
        record v { fsynced_file = 0; is_dirty = false },
      )
  unfolding fsync_request
  last_fsync k last = one_fsync k ∙ rw last

  series :
      (n k : ℕ)
      → suc (k + n) ≡ cfg.num_files
      → requests (suc n) cfg (record v { fsynced_file = k })
        ≡ (fsyncs k (suc n), record v { fsynced_file = 0; is_dirty = false })
  series zero k e = ap (λ p. (p.0 ∷ [], p.1)) (last_fsync k (ground arith))
  series (suc n) k e =
      ap (λ p. (p.0 ∷ (requests (suc n) cfg p.1).0, (requests (suc n) cfg p.1).1))
        (mid_fsync k (ground arith))
      ∙ ap (λ q. (record { file_id = k; pos = 0; size = 0; operation = fsync_op } ∷ q.0, q.1))
          (series n (suc k) (omega arith))

-- When an fsync is due in a mode that writes and no file has been synced, the next requests, as
-- many as there are files, are one fsync of each file in the order of the files; the files are then
-- clean and nothing else has changed.
pub requests-fsyncs :
    (cfg : Config) (v : Vars)
    → 0 < cfg.num_files
    → is_write (seq_operation cfg.test_mode) ≡ true
    → fsync_due cfg v ≡ true
    → v.fsynced_file ≡ 0
    → requests cfg.num_files cfg v ≡ (fsyncs 0 cfg.num_files, record v { is_dirty = false })
requests-fsyncs cfg v some_file writes due first =
    subst (λ n. requests n cfg v ≡ (fsyncs 0 n, record v { is_dirty = false })) whole
      (subst (λ w. requests (suc rest) cfg w ≡ (fsyncs 0 (suc rest), record w { is_dirty = false }))
        start (series cfg v writes due rest 0 (omega (arith, whole))))
  where
    rest : ℕ
    rest = cfg.num_files - 1

    whole : suc rest ≡ cfg.num_files
    whole = omega arith

    start : record v { fsynced_file = 0 } ≡ v
    start = ap (λ k. record v { fsynced_file = k }) (sym first)

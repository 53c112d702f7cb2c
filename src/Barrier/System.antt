-- ===== src/Barrier/System.antt =====
-- Threads at a barrier (src/sb_barrier.c): every interleaving of the two atomic parts of
-- sb_barrier_wait, with the wake-ups of pthread_cond_broadcast and spurious ones.
use sysbench.Prelude.{ℕ, ◌≡◌, some, List, get_elem?, set, replicate, if◌then◌else◌}
use sysbench.Barrier.{Barrier, Status, idle, waiting, woken, broadcast, arrive, resume}

pub record System (W : Type 0) : Type 0 where
  pub barrier : Barrier W
  pub world : W
  pub threads : List Status

module _ {W : Type 0} where
  -- A thread calls sb_barrier_wait.
  unfoldable pub call : System W → ℕ → System W
  call s i =
      let (b, w, status, broadcasts) = arrive s.barrier s.world in
      record {
        barrier = b;
        world = w;
        threads = set (if broadcasts then broadcast s.threads else s.threads) i status;
      }

  -- A thread that was woken goes on.
  unfoldable pub wake : System W → ℕ → ℕ → System W
  wake s i serial = record s { threads = set s.threads i (resume s.barrier serial) }

  -- A sleeping thread is woken without a broadcast.
  abbrev pub stir : System W → ℕ → ℕ → System W
  stir s i serial = record s { threads = set s.threads i (woken serial) }

  -- What threads do of themselves.
  pub data Step : System W → System W → Type 0 where
    calls : (s : System W) (i : ℕ) → get_elem? s.threads i ≡ some idle → Step s (call s i)
    wakes :
        (s : System W) (i serial : ℕ)
        → get_elem? s.threads i ≡ some (woken serial)
        → Step s (wake s i serial)

  -- Steps with spurious wake-ups between them.
  pub data Reach (s : System W) : System W → Type 0 where
    here : Reach s s
    next : {t u : System W} → Reach s t → Step t u → Reach s u
    spurious :
        {t : System W} (i serial : ℕ)
        → Reach s t
        → get_elem? t.threads i ≡ some (waiting serial)
        → Reach s (stir t i serial)

  -- Steps alone.
  pub data Steps (s : System W) : System W → Type 0 where
    done : Steps s s
    more : {t u : System W} → Steps s t → Step t u → Steps s u

  -- As many threads as the barrier counts, none of which has called yet.
  abbrev pub start : Barrier W → W → System W
  start b w = record { barrier = b; world = w; threads = replicate b.init_count idle }

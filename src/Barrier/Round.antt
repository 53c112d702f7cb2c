-- ===== src/Barrier/Round.antt =====
-- One round of a barrier (src/sb_barrier.c): as many threads as it counts, each calling
-- sb_barrier_wait once, in any interleaving.
use mathlib.Core.Option
use sysbench.Prelude.{
  ℕ, zero, suc, ◌+◌, ◌<◌, ◌≡◌, ◌∙◌, ◌⊎◌, inl, inr, refl, sym, ap, ap₂, Bool, true, false, some,
  arith, ◌==◌, if◌then◌else◌, get_elem?, set, replicate, List, [], ◌∷◌, Bool-cases, u32, u32_mod,
  sub32, tally, tally-set, tally-zero,
}
use sysbench.Prelude.Int.{ℤ, pos, negsuc}
use sysbench.Barrier.{
  Barrier, Status, idle, waiting, woken, returned, wake_up, broadcast, serial_thread, run_callback,
  release, arrive, resume,
}
use sysbench.Barrier.System.{System, call, wake, stir, start}

abbrev pub is_idle : Status → ℕ
is_idle idle = 1
is_idle _ = 0

abbrev pub is_returned : Status → ℕ
is_returned (returned r) = 1
is_returned _ = 0

abbrev pub is_serial : Status → ℕ
is_serial (returned (pos n)) = if n == 1 then 1 else 0
is_serial _ = 0

-- In sb_barrier_wait with another serial than `k`.
abbrev pub is_stale : ℕ → Status → ℕ
is_stale k (waiting serial) = if serial == k then 0 else 1
is_stale k (woken serial) = if serial == k then 0 else 1
is_stale k _ = 0

abbrev pub is_asleep : Status → ℕ
is_asleep (waiting serial) = 1
is_asleep _ = 0

-- A return value that does not tell whether the callback failed.
abbrev pub is_wrong : Bool → Status → ℕ
is_wrong true (returned (pos n)) = 1
is_wrong false (returned (negsuc n)) = 1
is_wrong _ _ = 0

tally-replicate : (f : Status → ℕ) (n : ℕ) → f idle ≡ 0 → tally f (replicate n idle) ≡ 0
tally-replicate f zero e = refl
tally-replicate f (suc n) e = omega (arith, tally-replicate f n e)

idle-replicate : (n : ℕ) → tally is_idle (replicate n idle) ≡ n
idle-replicate zero = refl
idle-replicate (suc n) = omega (arith, idle-replicate n)

-- A broadcast and the status of one thread change a count as the status alone does.
tally-broadcast :
    (f : Status → ℕ) (threads : List Status)
    → ((x : Status) → f (wake_up x) ≡ f x)
    → tally f (broadcast threads) ≡ tally f threads
tally-broadcast f [] h = refl
tally-broadcast f (x ∷ threads) h = omega (arith, h x, tally-broadcast f threads h)

get-broadcast :
    (threads : List Status) (i : ℕ)
    → get_elem? threads i ≡ some idle
    → get_elem? (broadcast threads) i ≡ some idle
get-broadcast [] i e = e
get-broadcast (x ∷ threads) zero e = ap (Option.map wake_up) e
get-broadcast (x ∷ threads) (suc i) e = get-broadcast threads i e

asleep-broadcast : (threads : List Status) → tally is_asleep (broadcast threads) ≡ 0
asleep-broadcast [] = refl
asleep-broadcast (idle ∷ threads) = omega (arith, asleep-broadcast threads)
asleep-broadcast (waiting k ∷ threads) = omega (arith, asleep-broadcast threads)
asleep-broadcast (woken k ∷ threads) = omega (arith, asleep-broadcast threads)
asleep-broadcast (returned r ∷ threads) = omega (arith, asleep-broadcast threads)

module _ (threads : List Status) (i : ℕ) (e : get_elem? threads i ≡ some idle) where
  pub tally-last :
      (f : Status → ℕ) (y : Status)
      → ((x : Status) → f (wake_up x) ≡ f x)
      → tally f (set (broadcast threads) i y) + f idle ≡ tally f threads + f y
  tally-last f y h = omega (
    arith,
    tally-broadcast f threads h,
    tally-set f (broadcast threads) i y (get-broadcast threads i e),
  )

  asleep-last : (r : ℤ) → tally is_asleep (set (broadcast threads) i (returned r)) ≡ 0
  asleep-last r = omega (
    arith,
    asleep-broadcast threads,
    tally-set is_asleep (broadcast threads) i (returned r) (get-broadcast threads i e),
  )

pub idle-wake_up : (x : Status) → is_idle (wake_up x) ≡ is_idle x
idle-wake_up idle = refl
idle-wake_up (waiting k) = refl
idle-wake_up (woken k) = refl
idle-wake_up (returned r) = refl

stale-wake_up : (k : ℕ) (x : Status) → is_stale k (wake_up x) ≡ is_stale k x
stale-wake_up k idle = refl
stale-wake_up k (waiting serial) = refl
stale-wake_up k (woken serial) = refl
stale-wake_up k (returned r) = refl

serial-wake_up : (x : Status) → is_serial (wake_up x) ≡ is_serial x
serial-wake_up idle = refl
serial-wake_up (waiting k) = refl
serial-wake_up (woken k) = refl
serial-wake_up (returned r) = refl

wrong-wake_up : (failed : Bool) (x : Status) → is_wrong failed (wake_up x) ≡ is_wrong failed x
wrong-wake_up true idle = refl
wrong-wake_up true (waiting k) = refl
wrong-wake_up true (woken k) = refl
wrong-wake_up true (returned r) = refl
wrong-wake_up false idle = refl
wrong-wake_up false (waiting k) = refl
wrong-wake_up false (woken k) = refl
wrong-wake_up false (returned r) = refl

-- A barrier on which no thread has arrived, of counters that are unsigned ints.
pub record IsFresh {W : Type 0} (b : Barrier W) : Type 0 where
  pub count_pos : 0 < b.count
  pub count_init : b.count ≡ b.init_count
  pub count_word : b.count < u32_mod
  pub serial_word : b.serial < u32_mod
  pub no_error : b.error ≡ false

module _ {W : Type 0} (b : Barrier W) (w : W) where
  -- Some thread has not called yet.
  pub record Before (s : System W) : Type 0 where
    same_init : s.barrier.init_count ≡ b.init_count
    same_callback : s.barrier.callback ≡ b.callback
    same_serial : s.barrier.serial ≡ b.serial
    same_world : s.world ≡ w
    no_error : s.barrier.error ≡ false
    pub count_pos : 0 < s.barrier.count
    count_word : s.barrier.count < u32_mod
    pub idles : tally is_idle s.threads ≡ s.barrier.count
    pub unreturned : tally is_returned s.threads ≡ 0
    no_serial : tally is_serial s.threads ≡ 0
    right_true : tally (is_wrong true) s.threads ≡ 0
    right_false : tally (is_wrong false) s.threads ≡ 0
    fresh : tally (is_stale b.serial) s.threads ≡ 0

  -- All threads have called.
  pub record After (s : System W) : Type 0 where
    pub asleep : tally is_asleep s.threads ≡ 0
    pub next_serial : s.barrier.serial ≡ u32 (b.serial + 1)
    pub error : s.barrier.error ≡ (run_callback b.callback w).1
    pub ran : s.world ≡ (run_callback b.callback w).0
    pub idles : tally is_idle s.threads ≡ 0
    pub fresh : tally (is_stale b.serial) s.threads ≡ 0
    pub one_serial : tally is_serial s.threads ≡ (if (run_callback b.callback w).1 then 0 else 1)
    pub right : tally (is_wrong (run_callback b.callback w).1) s.threads ≡ 0

  pub start-Before : IsFresh b → Before (start b w)
  start-Before v = record {
    same_init = refl;
    same_callback = refl;
    same_serial = refl;
    same_world = refl;
    no_error = v.no_error;
    count_pos = v.count_pos;
    count_word = v.count_word;
    idles = idle-replicate b.init_count ∙ sym v.count_init;
    unreturned = tally-replicate is_returned b.init_count refl;
    no_serial = tally-replicate is_serial b.init_count refl;
    right_true = tally-replicate (is_wrong true) b.init_count refl;
    right_false = tally-replicate (is_wrong false) b.init_count refl;
    fresh = tally-replicate (is_stale b.serial) b.init_count refl;
  }

  pub call-Before :
      (s : System W) (i : ℕ)
      → get_elem? s.threads i ≡ some idle
      → Before s
      → Before (call s i) ⊎ After (call s i)
  unfolding call arrive release
  call-Before s i e v = elim (Bool-cases (sub32 s.barrier.count 1 == 0)) [
    | inl last ↦
        let one : s.barrier.count ≡ 1 = ground arith in
        inr (elim (Bool-cases (run_callback b.callback w).1) [
          | inl failed ↦
              let f = rw (← v.same_callback, ← v.same_world) at failed in
              rw (last, f)
                (record {
                  asleep = asleep-last s.threads i e (negsuc 0);
                  next_serial = ap (λ k. u32 (k + 1)) v.same_serial;
                  error = sym failed;
                  ran = ap₂ (λ c x. (run_callback c x).0) v.same_callback v.same_world;
                  idles = omega (
                    arith,
                    v.idles,
                    one,
                    tally-last s.threads i e is_idle (returned (negsuc 0)) idle-wake_up,
                  );
                  fresh = omega (
                    arith,
                    v.fresh,
                    tally-last s.threads i e (is_stale b.serial) (returned (negsuc 0))
                        (stale-wake_up b.serial),
                  );
                  one_serial = rw failed (
                      omega (
                        arith,
                        v.no_serial,
                        tally-last s.threads i e is_serial (returned (negsuc 0)) serial-wake_up,
                      ));
                  right = rw failed (
                      omega (
                        arith,
                        v.right_true,
                        tally-last s.threads i e (is_wrong true) (returned (negsuc 0))
                            (wrong-wake_up true),
                      ));
                })
          | inr fine ↦
              let f = rw (← v.same_callback, ← v.same_world) at fine in
              rw (last, f)
                (record {
                  asleep = asleep-last s.threads i e serial_thread;
                  next_serial = ap (λ k. u32 (k + 1)) v.same_serial;
                  error = v.no_error ∙ sym fine;
                  ran = ap₂ (λ c x. (run_callback c x).0) v.same_callback v.same_world;
                  idles = omega (
                    arith,
                    v.idles,
                    one,
                    tally-last s.threads i e is_idle (returned serial_thread) idle-wake_up,
                  );
                  fresh = omega (
                    arith,
                    v.fresh,
                    tally-last s.threads i e (is_stale b.serial) (returned serial_thread)
                        (stale-wake_up b.serial),
                  );
                  one_serial = rw fine (
                      omega (
                        arith,
                        v.no_serial,
                        tally-last s.threads i e is_serial (returned serial_thread) serial-wake_up,
                      ));
                  right = rw fine (
                      omega (
                        arith,
                        v.right_false,
                        tally-last s.threads i e (is_wrong false) (returned serial_thread)
                            (wrong-wake_up false),
                      ));
                })
        ])
    | inr more ↦ inl (
        rw more (record {
          same_init = v.same_init;
          same_callback = v.same_callback;
          same_serial = v.same_serial;
          same_world = v.same_world;
          no_error = v.no_error;
          count_pos = ground arith;
          count_word = omega arith;
          idles =
              omega (arith, v.idles, tally-set is_idle s.threads i (waiting s.barrier.serial) e);
          unreturned =
              omega (
                arith,
                v.unreturned,
                tally-set is_returned s.threads i (waiting s.barrier.serial) e,
              );
          no_serial =
              omega
                (arith, v.no_serial, tally-set is_serial s.threads i (waiting s.barrier.serial) e);
          right_true = omega (
            arith,
            v.right_true,
            tally-set (is_wrong true) s.threads i (waiting s.barrier.serial) e,
          );
          right_false = omega (
            arith,
            v.right_false,
            tally-set (is_wrong false) s.threads i (waiting s.barrier.serial) e,
          );
          fresh = ground (
            arith,
            v.fresh,
            v.same_serial,
            tally-set (is_stale b.serial) s.threads i (waiting s.barrier.serial) e,
          );
        }))
  ]

  pub wake-Before :
      (s : System W) (i serial : ℕ)
      → get_elem? s.threads i ≡ some (woken serial)
      → Before s
      → Before (wake s i serial)
  unfolding wake resume
  wake-Before s i serial e v =
      let same : serial ≡ b.serial =
        ground (arith, v.fresh, tally-zero (is_stale b.serial) s.threads i e) in
      let asleep : (serial == s.barrier.serial) ≡ true = ground (arith, same, v.same_serial) in
      rw asleep (record {
        same_init = v.same_init;
        same_callback = v.same_callback;
        same_serial = v.same_serial;
        same_world = v.same_world;
        no_error = v.no_error;
        count_pos = v.count_pos;
        count_word = v.count_word;
        idles = omega (arith, v.idles, tally-set is_idle s.threads i (waiting serial) e);
        unreturned =
            omega (arith, v.unreturned, tally-set is_returned s.threads i (waiting serial) e);
        no_serial = omega (arith, v.no_serial, tally-set is_serial s.threads i (waiting serial) e);
        right_true =
            omega (arith, v.right_true, tally-set (is_wrong true) s.threads i (waiting serial) e);
        right_false =
            omega (arith, v.right_false, tally-set (is_wrong false) s.threads i (waiting serial) e);
        fresh =
            omega (arith, v.fresh, tally-set (is_stale b.serial) s.threads i (waiting serial) e);
      })

  pub wake-After :
      (s : System W) (i serial : ℕ)
      → get_elem? s.threads i ≡ some (woken serial)
      → b.serial < u32_mod
      → After s
      → After (wake s i serial)
  unfolding wake resume
  wake-After s i serial e h v =
      let same : serial ≡ b.serial =
        ground (arith, v.fresh, tally-zero (is_stale b.serial) s.threads i e) in
      let awake : (serial == s.barrier.serial) ≡ false = ground (arith, same, v.next_serial) in
      let r = if s.barrier.error then negsuc 0 else pos 0 in
      rw awake (record {
        asleep = omega (arith, v.asleep, tally-set is_asleep s.threads i (returned r) e);
        next_serial = v.next_serial;
        error = v.error;
        ran = v.ran;
        idles = omega (arith, v.idles, tally-set is_idle s.threads i (returned r) e);
        fresh = omega (arith, v.fresh, tally-set (is_stale b.serial) s.threads i (returned r) e);
        one_serial = ground (arith, v.one_serial, tally-set is_serial s.threads i (returned r) e);
        right = ground (
          arith,
          v.right,
          v.error,
          tally-set (is_wrong (run_callback b.callback w).1) s.threads i (returned r) e,
        );
      })

  -- A spurious wake-up.
  pub stir-Before :
      (s : System W) (i serial : ℕ)
      → get_elem? s.threads i ≡ some (waiting serial)
      → Before s
      → Before (stir s i serial)
  stir-Before s i serial e v = record {
    same_init = v.same_init;
    same_callback = v.same_callback;
    same_serial = v.same_serial;
    same_world = v.same_world;
    no_error = v.no_error;
    count_pos = v.count_pos;
    count_word = v.count_word;
    idles = omega (arith, v.idles, tally-set is_idle s.threads i (woken serial) e);
    unreturned = omega (arith, v.unreturned, tally-set is_returned s.threads i (woken serial) e);
    no_serial = omega (arith, v.no_serial, tally-set is_serial s.threads i (woken serial) e);
    right_true =
        omega (arith, v.right_true, tally-set (is_wrong true) s.threads i (woken serial) e);
    right_false =
        omega (arith, v.right_false, tally-set (is_wrong false) s.threads i (woken serial) e);
    fresh = omega (arith, v.fresh, tally-set (is_stale b.serial) s.threads i (woken serial) e);
  }

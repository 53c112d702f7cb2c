-- ===== src/Barrier/Results.antt =====
-- What threads may rely on at a barrier (src/sb_barrier.c).
use sysbench.Prelude.{
  ℕ, zero, suc, ◌+◌, ◌≤◌, ◌<◌, ◌≡◌, ◌∙◌, ◌⊎◌, inl, inr, refl, ap, Bool, true, false, some, List, [],
  ◌∷◌, arith, ◌==◌, if◌then◌else◌, get_elem?, Bool-cases, tally, tally-set, tally-zero,
}
use sysbench.Prelude.Int.{ℤ, pos, negsuc}
use sysbench.Barrier.{
  Barrier, Status, idle, waiting, woken, returned, run_callback, release, arrive, resume,
}
use sysbench.Barrier.System.{
  System, call, wake, calls, wakes, Reach, here, next, spurious, Steps, done, more, start,
}
use sysbench.Barrier.Round.{
  is_idle, is_returned, is_serial, is_stale, is_asleep, is_wrong, idle-wake_up, tally-last,
  stir-Before, IsFresh, Before, After, start-Before, call-Before, wake-Before, wake-After,
}

abbrev pub is_negative : ℤ → Bool
is_negative (pos n) = false
is_negative (negsuc n) = true

-- In sb_barrier_wait, asleep or woken.
abbrev pub is_inside : Status → ℕ
is_inside (waiting k) = 1
is_inside (woken k) = 1
is_inside _ = 0

find-tally :
    (f : Status → ℕ) (threads : List Status)
    → 0 < tally f threads
    → (i : ℕ) × (x : Status) × (get_elem? threads i ≡ some x) × (0 < f x)
find-tally f [] h = absurd (omega arith)
find-tally f (s ∷ threads) h = elim (Bool-cases (f s == 0)) [
  | inl nothing ↦ let (i, x, e, p) = find-tally f threads (ground arith) in (suc i, x, e, p)
  | inr something ↦ (0, s, refl, ground arith)
]

idle-of : (x : Status) → 0 < is_idle x → x ≡ idle
idle-of idle h = refl
idle-of (waiting k) h = absurd (omega arith)
idle-of (woken k) h = absurd (omega arith)
idle-of (returned r) h = absurd (omega arith)

woken-of : (x : Status) → 0 < is_inside x → is_asleep x ≤ 0 → (k : ℕ) × (x ≡ woken k)
woken-of idle h none_asleep = absurd (omega arith)
woken-of (waiting k) h none_asleep = absurd (omega arith)
woken-of (woken k) h none_asleep = (k, refl)
woken-of (returned r) h none_asleep = absurd (omega arith)

right_sign : (failed : Bool) (r : ℤ) → is_wrong failed (returned r) ≤ 0 → is_negative r ≡ failed
right_sign true (pos n) h = absurd (omega arith)
right_sign true (negsuc n) h = refl
right_sign false (pos n) h = refl
right_sign false (negsuc n) h = absurd (omega arith)

Steps-trans : {W : Type 0} {s t u : System W} → Steps s t → Steps t u → Steps s u
Steps-trans r done = r
Steps-trans r (more q st) = more (Steps-trans r q) st

arrive-not_idle : {W : Type 0} (b : Barrier W) (w : W) → is_idle (arrive b w).2 ≡ 0
unfolding arrive release
arrive-not_idle b w = ground arith

module _ {W : Type 0} (b : Barrier W) (w : W) where
  phase : {s : System W} → IsFresh b → Reach (start b w) s → Before b w s ⊎ After b w s
  phase v here = inl (start-Before b w v)
  phase v (next r (calls s i e)) = elim (phase v r) [
    | inl before ↦ call-Before b w s i e before
    | inr after ↦ absurd (omega (arith, after.idles, tally-zero is_idle s.threads i e))
  ]
  phase v (next r (wakes s i k e)) = elim (phase v r) [
    | inl before ↦ inl (wake-Before b w s i k e before)
    | inr after ↦ inr (wake-After b w s i k e v.serial_word after)
  ]
  phase v (spurious {t} i k r e) = elim (phase v r) [
    | inl before ↦ inl (stir-Before b w t i k e before)
    | inr after ↦ absurd (omega (arith, after.asleep, tally-zero is_asleep t.threads i e))
  ]

  -- In every interleaving of one round, from a fresh barrier: once a thread has returned from
  -- sb_barrier_wait, every thread has called it, the callback has run exactly once, the value
  -- returned is negative exactly when the callback failed, and exactly one thread has been given
  -- SB_BARRIER_SERIAL_THREAD, or none if the callback failed.
  pub returned-together :
      {s : System W} (i : ℕ) (r : ℤ)
      → IsFresh b
      → Reach (start b w) s
      → get_elem? s.threads i ≡ some (returned r)
      → (tally is_idle s.threads ≡ 0)
        × (s.world ≡ (run_callback b.callback w).0)
        × (is_negative r ≡ (run_callback b.callback w).1)
        × (tally is_serial s.threads ≡ (if (run_callback b.callback w).1 then 0 else 1))
  returned-together {s} i r v reach e = elim (phase v reach) [
    | inl before ↦ absurd (omega (arith, before.unreturned, tally-zero is_returned s.threads i e))
    | inr after ↦ (
      after.idles,
      after.ran,
      right_sign _ r (omega (arith, after.right, tally-zero (is_wrong _) s.threads i e)),
      after.one_serial,
    )
  ]

  idle-call :
      (s : System W) (i : ℕ)
      → get_elem? s.threads i ≡ some idle
      → tally is_idle (call s i).threads + 1 ≡ tally is_idle s.threads
  unfolding call
  idle-call s i e = elim (Bool-cases (arrive s.barrier s.world).3) [
    | inl last ↦ rw last (
        omega (
          arith,
          arrive-not_idle s.barrier s.world,
          tally-last s.threads i e is_idle (arrive s.barrier s.world).2 idle-wake_up,
        ))
    | inr sleeps ↦ rw sleeps (
        omega (
          arith,
          arrive-not_idle s.barrier s.world,
          tally-set is_idle s.threads i (arrive s.barrier s.world).2 e,
        ))
  ]

  finish_calls :
      (n : ℕ) (s : System W)
      → Before b w s
      → tally is_idle s.threads ≡ n
      → (t : System W) × Steps s t × After b w t
  finish_calls zero s before h = absurd (omega (arith, before.idles, before.count_pos))
  finish_calls (suc n) s before h =
      let (i, x, e, p) = find-tally is_idle s.threads (omega arith) in
      let e' : get_elem? s.threads i ≡ some idle = e ∙ ap some (idle-of x p) in
      elim (call-Before b w s i e' before) [
        | inl again ↦
            let (t, r, after) = finish_calls n (call s i) again (omega (arith, idle-call s i e')) in
            (t, Steps-trans (more done (calls s i e')) r, after)
        | inr after ↦ (call s i, more done (calls s i e'), after)
      ]

  woken-wake :
      (s : System W) (i k : ℕ)
      → IsFresh b
      → get_elem? s.threads i ≡ some (woken k)
      → After b w s
      → tally is_inside (wake s i k).threads + 1 ≡ tally is_inside s.threads
  unfolding wake resume
  woken-wake s i k v e after =
      let same : k ≡ b.serial =
        ground (arith, after.fresh, tally-zero (is_stale b.serial) s.threads i e) in
      let awake : (k == s.barrier.serial) ≡ false =
        ground (arith, same, after.next_serial, v.serial_word) in
      rw awake (
        omega (
          arith,
          tally-set is_inside s.threads i (returned (if s.barrier.error then negsuc 0 else pos 0))
              e,
        ))

  finish_wakes :
      (n : ℕ) (s : System W)
      → IsFresh b
      → After b w s
      → tally is_inside s.threads ≡ n
      → (t : System W) × Steps s t × (tally is_idle t.threads ≡ 0) × (tally is_inside t.threads ≡ 0)
  finish_wakes zero s v after h = (s, done, after.idles, h)
  finish_wakes (suc n) s v after h =
      let (i, x, e, p) = find-tally is_inside s.threads (omega arith) in
      let up : is_asleep x ≤ 0 = omega (arith, after.asleep, tally-zero is_asleep s.threads i e) in
      let (k, x_eq) = woken-of x p up in
      let e' : get_elem? s.threads i ≡ some (woken k) = e ∙ ap some x_eq in
      let (t, r, idles, asleep) =
        finish_wakes n (wake s i k) v (wake-After b w s i k e' v.serial_word after)
          (omega (arith, woken-wake s i k v e' after)) in
      (t, Steps-trans (more done (wakes s i k e')) r, idles, asleep)

  -- No interleaving of a round deadlocks, and the broadcast is enough to wake every thread: for a
  -- fresh barrier and as many threads as it counts, from every state that a round reaches, with
  -- spurious wake-ups or not, steps without a spurious wake-up lead to a state in which no thread
  -- is outside sb_barrier_wait, asleep or woken in it, so that all have returned.
  pub all_return :
      (s : System W)
      → IsFresh b
      → Reach (start b w) s
      → (t : System W) × Steps s t × (tally is_idle t.threads ≡ 0) × (tally is_inside t.threads ≡ 0)
  all_return s v reach =
      let (t, r, after) = called in
      let (u, r', idles, asleep) = finish_wakes (tally is_inside t.threads) t v after refl in
      (u, Steps-trans r r', idles, asleep)
    where
      called : (t : System W) × Steps s t × After b w t
      called = elim (phase v reach) [
        | inl before ↦ finish_calls (tally is_idle s.threads) s before refl
        | inr after ↦ (s, done, after)
      ]

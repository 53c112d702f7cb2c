-- ===== src/Barrier/Init.antt =====
-- What sb_barrier_init (src/sb_barrier.c) makes.
use sysbench.Prelude.{
  ℕ, zero, suc, ◌<◌, ◌≡◌, refl, Bool, true, false, Option, none, some, arith, ◌==◌, if◌then◌else◌,
  subst, u32_mod,
}
use sysbench.Barrier.{init, Barrier}
use sysbench.Barrier.Round.{IsFresh}

-- sb_barrier_init makes a fresh barrier of its count.
pub init-IsFresh :
    {W : Type 0} (count : ℕ) (callback : Option (W → W × Bool)) (b : Barrier W)
    → count < u32_mod
    → init count callback ≡ some b
    → IsFresh b × (b.init_count ≡ count)
unfolding init
init-IsFresh {W} zero callback b word e = absurd (cc)
init-IsFresh {W} (suc n) callback b word e = fresh (made (suc n == 0) e (ground arith))
  where
    first : Barrier W
    first = record {
      init_count = suc n;
      count = suc n;
      callback = callback;
      serial = 0;
      error = false;
    }

    made :
        (is_zero : Bool)
        → (if is_zero then none else some first) ≡ some b
        → is_zero ≡ false
        → first ≡ b
    made true e off = absurd (cc)
    made false e off = cc

    fresh : first ≡ b → IsFresh b × (b.init_count ≡ suc n)
    fresh e =
        subst (λ x. IsFresh x × (x.init_count ≡ suc n)) e
          (
            record {
              count_pos = omega arith;
              count_init = refl;
              count_word = word;
              serial_word = omega arith;
              no_error = refl;
            },
            refl,
          )

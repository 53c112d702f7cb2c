-- ===== src/Compare/Statement/Tests.antt =====
-- Statements prepared on two servers (src/drivers/compare/drv_compare.c).
use sysbench.Prelude.{ℕ, ◌+◌, ◌≡◌, ◌⊎◌, refl, true, false, none, some, List, [], ◌∷◌}
use sysbench.Compare.Statement.{
  Preparing, prepares, unsupported, refuses, drv_prepare, Binder, drv_bind_result,
}
use sysbench.Compare.Statement.Balance.{count, kept, drv_prepare-balanced}

abbrev third_refuses : List Preparing
third_refuses = prepares ∷ unsupported ∷ refuses ∷ prepares ∷ []

all_closed : drv_prepare false true (some third_refuses) ≡ record {
  status = 1;
  statements = none;
  emulated = true;
  opened = 0 ∷ 1 ∷ 2 ∷ [];
  closed = 1 ∷ 2 ∷ 0 ∷ [];
}
unfolding drv_prepare
all_closed = refl

drv_prepare-balanced_example :
    let s = drv_prepare false true (some third_refuses) in
    (count 0 s.opened ≡ count 0 s.closed + count 0 (kept s.statements))
    × ((s.status ≡ 0) ⊎ ((s.status ≡ 1) × (count 0 s.opened ≡ count 0 s.closed)))
drv_prepare-balanced_example = drv_prepare-balanced false true (some third_refuses) 0

abbrev one_param : ℕ → Binder
one_param i = record { param_count = 1; binds = true }

-- Results are bound to the statements that are prepared.
results_bound :
    drv_bind_result false (drv_prepare false true (some (prepares ∷ unsupported ∷ []))) one_param
    ≡ 0
unfolding drv_bind_result drv_prepare
results_bound = refl

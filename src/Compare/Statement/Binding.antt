-- ===== src/Compare/Statement/Binding.antt =====
-- When parameters can be bound to a prepared statement (src/drivers/compare/drv_compare.c).
use sysbench.Prelude.{
  ℕ, suc, ◌≡◌, ◌⊎◌, refl, sym, subst, Bool, true, false, Option, none, some, List, [], ◌∷◌, arith,
  ◌==◌, if◌then◌else◌, inl, inr,
}
use sysbench.Compare.Statement.{
  Preparing, no_connection, no_statement, prepares, unsupported, refuses, prepare_one, prepare_each,
  drv_prepare, Binder, bind_params, drv_bind_param,
}

-- Each connection prepares the statement or says that it cannot prepare statements.
abbrev pub AllAnswer : List Preparing → Type 0
AllAnswer [] = Unit {0}
AllAnswer (p ∷ conns) = ((p ≡ prepares) ⊎ (p ≡ unsupported)) × AllAnswer conns

abbrev pub any_unsupported : List Preparing → Bool
any_unsupported [] = false
any_unsupported (unsupported ∷ conns) = true
any_unsupported (_ ∷ conns) = any_unsupported conns

prepare_each-emulated :
    (i : ℕ) (conns : List Preparing)
    → AllAnswer conns
    → ((prepare_each true i conns).goes_on ≡ true)
      × ((prepare_each true i conns).emulated ≡ any_unsupported conns)
unfolding prepare_each prepare_one
prepare_each-emulated i [] h = (refl, refl)
prepare_each-emulated i (prepares ∷ conns) h = prepare_each-emulated (suc i) conns h.1
prepare_each-emulated i (unsupported ∷ conns) h =
    ((prepare_each-emulated (suc i) conns h.1).0, refl)
prepare_each-emulated i (no_connection ∷ conns) (inl e, h) = cc
prepare_each-emulated i (no_connection ∷ conns) (inr e, h) = cc
prepare_each-emulated i (no_statement ∷ conns) (inl e, h) = cc
prepare_each-emulated i (no_statement ∷ conns) (inr e, h) = cc
prepare_each-emulated i (refuses ∷ conns) (inl e, h) = cc
prepare_each-emulated i (refuses ∷ conns) (inr e, h) = cc

bind_params-all :
    (len : ℕ) (binder : ℕ → Binder) (statements : List (Option ℕ))
    → ((i : ℕ) → ((binder i).param_count ≡ len) × ((binder i).binds ≡ true))
    → bind_params len binder statements ≡ 0
unfolding bind_params
bind_params-all len binder [] good = refl
bind_params-all len binder (none ∷ statements) good = bind_params-all len binder statements good
bind_params-all len binder (some i ∷ statements) good =
    let right : ((binder i).param_count == len) ≡ true = ground (arith, (good i).0) in
    rw (right, (good i).1) (bind_params-all len binder statements good)

drv_prepare-made :
    (c : Preparing) (conns : List Preparing)
    → let w = prepare_each true 0 (c ∷ conns) in
      w.goes_on ≡ true
      → drv_prepare false true (some (c ∷ conns)) ≡ record {
        status = 0;
        statements = some w.statements;
        emulated = w.emulated;
        opened = w.opened;
        closed = w.closed;
      }
unfolding drv_prepare
drv_prepare-made c conns ok = rw ok refl

-- With prepared statements in use, when every server either prepares a statement or says that it
-- does not support that, and every prepared one has as many parameters as are given and accepts
-- them: mysql_drv_prepare returns 0, and then mysql_drv_bind_param returns 0 exactly when no server
-- lacks the support; a single one that does makes it return 1 for all.
pub drv_bind_param-all_or_none :
    (c : Preparing) (conns : List Preparing) (len : ℕ) (binder : ℕ → Binder)
    → AllAnswer (c ∷ conns)
    → ((i : ℕ) → ((binder i).param_count ≡ len) × ((binder i).binds ≡ true))
    → let s = drv_prepare false true (some (c ∷ conns)) in
      (s.status ≡ 0)
      × (drv_bind_param false s len binder ≡ (if any_unsupported (c ∷ conns) then 1 else 0))
unfolding drv_bind_param
drv_bind_param-all_or_none c conns len binder h good =
    let (ok, e) = prepare_each-emulated 0 (c ∷ conns) h in
    let w = prepare_each true 0 (c ∷ conns) in
    let all = bind_params-all len binder w.statements good in
    let expected = if any_unsupported (c ∷ conns) then 1 else 0 in
    subst (λ s. (s.status ≡ 0) × (drv_bind_param false s len binder ≡ expected))
      (sym (drv_prepare-made c conns ok)) (refl, rw (e, all) refl)

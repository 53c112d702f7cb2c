-- ===== src/Compare/Statement/Balance.antt =====
-- Which statements are closed when preparing (src/drivers/compare/drv_compare.c) fails.
use sysbench.Prelude.{
  ℕ, suc, ◌+◌, ◌≡◌, ◌⊎◌, refl, Bool, true, false, Option, none, some, List, [], ◌∷◌, ◌++◌, arith,
  ◌==◌, if◌then◌else◌, tally, inl, inr, Bool-cases,
}
use sysbench.Compare.Statement.{
  Preparing, no_connection, no_statement, prepares, unsupported, refuses, Work, prepare_one,
  prepare_each, present, multi_stmt_free, drv_prepare,
}

-- How often a number is in a list.
abbrev pub count : ℕ → List ℕ → ℕ
count n xs = tally (λ x. if x == n then 1 else 0) xs

abbrev pub kept : Option (List (Option ℕ)) → List ℕ
kept none = []
kept (some statements) = present statements

count-append : (n : ℕ) (xs ys : List ℕ) → count n (xs ++ ys) ≡ count n xs + count n ys
count-append n [] ys = omega arith
count-append n (x ∷ xs) ys = omega (arith, count-append n xs ys)

prepare_one-balanced :
    (n : ℕ) (use_ps : Bool) (i : ℕ) (p : Preparing) (w : Work)
    → count n w.opened ≡ count n w.closed + count n (present w.statements)
    → let v = prepare_one use_ps i p w in
      count n v.opened ≡ count n v.closed + count n (present v.statements)
unfolding prepare_one
prepare_one-balanced n use_ps i no_connection w h = omega arith
prepare_one-balanced n false i no_statement w h = h
prepare_one-balanced n false i prepares w h = h
prepare_one-balanced n false i unsupported w h = h
prepare_one-balanced n false i refuses w h = h
prepare_one-balanced n true i no_statement w h = omega arith
prepare_one-balanced n true i prepares w h = omega arith
prepare_one-balanced n true i unsupported w h = omega arith
prepare_one-balanced n true i refuses w h = omega arith

prepare_each-balanced :
    (n : ℕ) (use_ps : Bool) (i : ℕ) (conns : List Preparing)
    → let w = prepare_each use_ps i conns in
      count n w.opened ≡ count n w.closed + count n (present w.statements)
unfolding prepare_each
prepare_each-balanced n use_ps i [] = omega arith
prepare_each-balanced n use_ps i (p ∷ conns) =
    prepare_one-balanced n use_ps i p (prepare_each use_ps (suc i) conns)
      (prepare_each-balanced n use_ps (suc i) conns)

-- Every statement that mysql_drv_prepare makes is either among those that it leaves in stmt->ptr
-- or is closed, as often as it was made; so when it returns 1 all of them are closed.
pub drv_prepare-balanced :
    (dry_run use_ps : Bool) (conns : Option (List Preparing)) (n : ℕ)
    → let s = drv_prepare dry_run use_ps conns in
      (count n s.opened ≡ count n s.closed + count n (kept s.statements))
      × ((s.status ≡ 0) ⊎ ((s.status ≡ 1) × (count n s.opened ≡ count n s.closed)))
unfolding drv_prepare multi_stmt_free
drv_prepare-balanced true use_ps conns n = (omega arith, inl refl)
drv_prepare-balanced false use_ps none n = (omega arith, inr (refl, omega arith))
drv_prepare-balanced false use_ps (some []) n = (omega arith, inr (refl, omega arith))
drv_prepare-balanced false use_ps (some (c ∷ others)) n =
    let w = prepare_each use_ps 0 (c ∷ others) in
    let h = prepare_each-balanced n use_ps 0 (c ∷ others) in
    let all_closed : count n w.opened ≡ count n (w.closed ++ present w.statements) =
      omega (arith, h, count-append n w.closed (present w.statements)) in
    elim (Bool-cases w.goes_on) [
      | inl good ↦ rw good (h, inl refl)
      | inr bad ↦ rw bad (omega (arith, all_closed), inr (refl, all_closed))
    ]

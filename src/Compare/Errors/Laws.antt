-- ===== src/Compare/Errors/Laws.antt =====
-- Which connection's error decides in check_error (src/drivers/compare/drv_compare.c), and when it
-- returns.
use sysbench.Prelude.{
  ℕ, zero, suc, ◌≡◌, ◌⊎◌, refl, sym, subst, Bool, true, false, Option, none, some, List, [], ◌∷◌,
  ◌++◌, ◌||◌, if◌then◌else◌, inl, inr, Bool-cases, replicate,
}
use sysbench.Prelude.Text.{Str}
use sysbench.Counters.{error, reconnect}
use sysbench.Db.{error_ignorable, error_fatal}
use sysbench.Compare.Errors.{
  Attempt, Handle, Verdict, retry, reconnect_each, drv_reconnect, ignores, ignored_error, judge,
  judge_first, check_error,
}

-- An error is in the list, or "all" is.
abbrev pub listed : List Str → ℕ → Bool
listed [] e = false
listed (val ∷ ignored) e = ignores val e || listed ignored e

-- Every connection connects again.
abbrev pub AllConnect : List (Option Handle) → Type 0
AllConnect [] = Unit {0}
AllConnect (none ∷ conns) = AllConnect conns
AllConnect (some h ∷ conns) = (retry h.attempts ≡ some true) × AllConnect conns

-- Some attempt connects or finds that sysbench is stopping.
abbrev pub Ends : List Attempt → Type 0
Ends [] = ⊥
Ends (a ∷ attempts) = (a.connects ≡ true) ⊎ (a.stopping ≡ true) ⊎ Ends attempts

abbrev pub AllEnd : List (Option Handle) → Type 0
AllEnd [] = Unit {0}
AllEnd (none ∷ conns) = AllEnd conns
AllEnd (some h ∷ conns) = Ends h.attempts × AllEnd conns

retry-Ends : (attempts : List Attempt) → Ends attempts → (b : Bool) × (retry attempts ≡ some b)
unfolding retry
retry-Ends [] h = absurd h
retry-Ends (a ∷ attempts) h = elim (Bool-cases a.connects) [
  | inl up ↦ (true, rw up refl)
  | inr down ↦ elim (Bool-cases a.stopping) [
    | inl stop ↦ (false, rw (down, stop) refl)
    | inr go_on ↦ let (b, e) = retry-Ends attempts (later h down go_on) in (b, rw (down, go_on) e)
  ]
]
  where
    later :
        (a.connects ≡ true) ⊎ (a.stopping ≡ true) ⊎ Ends attempts
        → a.connects ≡ false
        → a.stopping ≡ false
        → Ends attempts
    later (inl up) down go_on = cc
    later (inr (inl stop)) down go_on = cc
    later (inr (inr rest)) down go_on = rest

-- Reconnecting is over when it is for every connection; it has failed if it has for one of them.
reconnect_each-returns :
    (conns : List (Option Handle))
    → AllEnd conns
    → (reconnect_each conns ≡ some error_fatal)
      ⊎ ((reconnect_each conns ≡ some error_ignorable) × AllConnect conns)
unfolding reconnect_each
reconnect_each-returns [] h = inr (refl, tt)
reconnect_each-returns (none ∷ conns) h = reconnect_each-returns conns h
reconnect_each-returns (some c ∷ conns) h =
    let (connected, e) = retry-Ends c.attempts h.0 in
    settle connected e (reconnect_each-returns conns h.1)
  where
    settle :
        (connected : Bool)
        → retry c.attempts ≡ some connected
        → (reconnect_each conns ≡ some error_fatal)
          ⊎ ((reconnect_each conns ≡ some error_ignorable) × AllConnect conns)
        → (reconnect_each (some c ∷ conns) ≡ some error_fatal)
          ⊎ ((reconnect_each (some c ∷ conns) ≡ some error_ignorable) × AllConnect (some c ∷ conns))
    settle false e r = inl (rw (e, reconnect_each) refl)
    settle true e (inl fatal) = inl (rw (e, reconnect_each) fatal)
    settle true e (inr (good, all)) = inr (rw (e, reconnect_each) good, (e, all))

-- What check_error says of an error: it is fatal unless it is listed; a listed one that says that
-- the server is lost is fatal unless every connection connects again.
abbrev pub SaysIgnored : (ℕ → Bool) → ℕ → List (Option Handle) → Verdict → Type 0
SaysIgnored lost e conns v =
    if lost e
    then (v.counter ≡ some reconnect)
      × ((v.status ≡ error_fatal) ⊎ ((v.status ≡ error_ignorable) × AllConnect conns))
    else ((v.counter ≡ some error) × (v.status ≡ error_ignorable))

abbrev pub Says : (ℕ → Bool) → List Str → ℕ → List (Option Handle) → Verdict → Type 0
Says lost ignored e conns v =
    (v.sql_errno ≡ some e)
    × (if listed ignored e
        then SaysIgnored lost e conns v
        else ((v.counter ≡ some error) × (v.status ≡ error_fatal)))

module _ (lost : ℕ → Bool) (e : ℕ) (c : Option Handle) (conns : List (Option Handle)) where
  ignored_error-Says :
      AllEnd (c ∷ conns)
      → (v : Verdict) × (ignored_error lost e (c ∷ conns) ≡ some v)
        × ((v.sql_errno ≡ some e) × SaysIgnored lost e (c ∷ conns) v)
  unfolding ignored_error drv_reconnect
  ignored_error-Says h = elim (Bool-cases (lost e)) [
    | inl gone ↦ elim (reconnect_each-returns (c ∷ conns) h) [
      | inl fatal ↦ rw (gone, fatal) (_, refl, (refl, (refl, inl refl)))
      | inr (good, all) ↦ rw (gone, good) (_, refl, (refl, (refl, inr (refl, all))))
    ]
    | inr alive ↦ rw alive (_, refl, (refl, (refl, refl)))
  ]

  judge-Says :
      (ignored : List Str)
      → AllEnd (c ∷ conns)
      → (v : Verdict) × (judge lost ignored e (c ∷ conns) ≡ some v)
        × Says lost ignored e (c ∷ conns) v
  unfolding judge
  judge-Says [] h = (_, refl, (refl, (refl, refl)))
  judge-Says (val ∷ ignored) h = elim (Bool-cases (ignores val e)) [
    | inl hit ↦ rw (hit, judge) (ignored_error-Says h)
    | inr miss ↦ rw (miss, judge) (judge-Says ignored h)
  ]

-- Where a connection has a handle, check_error returns, provided that for every connection an
-- attempt to connect again succeeds or finds that sysbench is stopping. What it says and stores is
-- determined by the error of the first connection with a handle, whatever the errors of the others
-- are: it is fatal when that is not listed in --mysql-ignore-errors; when it is listed and says
-- that the server is lost, all connections are made again, or it is fatal; when it is listed
-- otherwise, it is ignorable.
pub check_error-first :
    (lost : ℕ → Bool) (ignored : List Str) (nulls : ℕ) (h : Handle) (conns : List (Option Handle))
    → AllEnd (replicate nulls none ++ (some h ∷ conns))
    → (v : Verdict) × (check_error lost ignored (some (replicate nulls none ++ (some h ∷ conns)))
        ≡ some v)
      × Says lost ignored h.errno (replicate nulls none ++ (some h ∷ conns)) v
unfolding check_error judge_first
check_error-first lost ignored zero h conns ends =
    judge-Says lost h.errno (some h) conns ignored ends
check_error-first lost ignored (suc nulls) h conns ends =
    subst (λ r. (v : Verdict) × (r ≡ some v) × Says lost ignored h.errno all v) (sym (skip nulls))
      (judge-Says lost h.errno none (replicate nulls none ++ (some h ∷ conns)) ignored ends)
  where
    all : List (Option Handle)
    all = replicate (suc nulls) none ++ (some h ∷ conns)

    skip :
        (k : ℕ)
        → judge_first lost ignored
            (none ∷ (replicate nulls none ++ (some h ∷ conns)))
            (replicate k none ++ (some h ∷ conns))
          ≡ judge lost ignored h.errno (none ∷ (replicate nulls none ++ (some h ∷ conns)))
    skip zero = refl
    skip (suc k) = skip k

-- ===== src/Db/Bulk/Sending.antt =====
-- What a flush of an insert of many rows (src/db_driver.c) sends to the driver.
use sysbench.Prelude.{
  ℕ, ◌+◌, ◌<◌, ◌≡◌, ◌∙◌, refl, ap, Bool, true, false, not, ◌&&◌, ◌||◌, List, [], ◌∷◌, ◌++◌, arith,
  u32, leb, ◌==◌, take, inl, inr, Bool-cases, if-elim,
}
use sysbench.Prelude.Text.{Str, codes}
use sysbench.Db.{
  Call, ConnState, conn_ready, conn_result_set, conn_invalid, Session, Reply, is_none, guard_in,
  guard, settle, call_driver, query,
}
use sysbench.Db.Bulk.{Bulk, Answers, run, text_of, commit_rows, do_insert}

-- Calls that free a result set.
abbrev pub AllFrees : List Call → Type 0
AllFrees [] = Unit {0}
AllFrees (Call.frees ∷ calls) = AllFrees calls
AllFrees (_ ∷ calls) = ⊥

-- No call, or a COMMIT after a result set has been freed.
abbrev pub IsCommit : List Call → Type 0
IsCommit [] = Unit {0}
IsCommit (Call.queries text ∷ calls) = (text ≡ codes "COMMIT") × AllFrees calls
IsCommit (_ ∷ calls) = ⊥

-- The calls after, the last one first, are those before, what frees a result set, the query of the
-- text, and a commit or nothing.
abbrev pub Sent : Str → List Call → List Call → Type 0
Sent text before after =
    (later : List Call) × (freeing : List Call) × IsCommit later
    × AllFrees freeing
    × (after ≡ later ++ (Call.queries text ∷ (freeing ++ before)))

guard_in-frees :
    (state : ConnState) (freed : Bool) (s : Session)
    → (freeing : List Call) × AllFrees freeing
      × ((guard_in state freed s).0.calls ≡ freeing ++ s.calls)
unfolding guard_in
guard_in-frees conn_ready freed s = ([], tt, refl)
guard_in-frees conn_result_set freed s = (Call.frees ∷ [], tt, refl)
guard_in-frees conn_invalid freed s = ([], tt, refl)

settle-calls : (r : Reply) (s : Session) → (settle r s).0.calls ≡ s.calls
unfolding settle
settle-calls r s = ground arith

settle-fine :
    (r : Reply) (s : Session)
    → (not (settle r s).1 && not (is_none (settle r s).0.error)) ≡ false
    → is_none r.status ≡ true
unfolding settle
settle-fine r s h = elim (Bool-cases (is_none r.status)) [
  | inl fine ↦ fine
  | inr bad ↦ absurd (ground (arith, bad, h))
]

-- A query that does not fail has been sent, and the driver has answered without an error.
run-sends :
    (freed : Bool) (r : Reply) (text : Str) (s : Session)
    → (run freed r text s).1 ≡ false
    → (freeing : List Call) × AllFrees freeing
      × ((run freed r text s).0.calls ≡ Call.queries text ∷ (freeing ++ s.calls))
      × (is_none r.status ≡ true)
unfolding run query guard
run-sends freed r text s h =
    let (freeing, all, e) = guard_in-frees s.state freed s in
    let called : Session = call_driver (Call.queries text) (guard_in s.state freed s).0 in
    elim (Bool-cases (guard_in s.state freed s).1) [
      | inl goes_on ↦
          let h' = rw goes_on at h in
          (
            freeing,
            all,
            rw goes_on (settle-calls r called ∙ ap (λ calls. Call.queries text ∷ calls) e),
            settle-fine r called h',
          )
      | inr stops ↦ let h' = rw stops at h in absurd (cc)
    ]

commit_rows-sends :
    (is_last : Bool) (a : Answers) (cnt : ℕ) (b : Bulk)
    → (commit_rows is_last a cnt b).1 ≡ false
    → (later : List Call) × IsCommit later
      × ((commit_rows is_last a cnt b).0.session.calls ≡ later ++ b.session.calls)
unfolding commit_rows
commit_rows-sends is_last a cnt b =
    if-elim Sends (b.commit_max == 0) (λ _ h. ([], tt, refl))
      (λ _.
        if-elim Sends (is_last || leb b.commit_max (u32 (b.commit_cnt + cnt)))
          (λ _.
            if-elim Sends (run a.commit_freed a.commit (codes "COMMIT") b.session).1
              (λ _ h. absurd (cc))
              (λ fine h.
                let (freeing, all, e, _) =
                  run-sends a.commit_freed a.commit (codes "COMMIT") b.session fine in
                (Call.queries (codes "COMMIT") ∷ freeing, (refl, all), e)))
          (λ _ h. ([], tt, refl)))
  where
    Sends : Bulk × Bool → Type 0
    Sends o =
        o.1 ≡ false
        → (later : List Call) × IsCommit later × (o.0.session.calls ≡ later ++ b.session.calls)

-- A flush that returns 0 has sent the buffer up to its position, the driver has taken it, and
-- nothing else is sent but a commit.
pub do_insert-Sent :
    (is_last : Bool) (a : Answers) (b : Bulk)
    → 0 < b.cnt
    → (do_insert is_last a b).1 ≡ 0
    → Sent (take b.ptr (text_of b.buffer)) b.session.calls (do_insert is_last a b).0.session.calls
      × (is_none a.insert.status ≡ true)
unfolding do_insert
do_insert-Sent is_last a b some_row =
    if-elim Done (b.cnt == 0) (λ none_there. absurd (ground arith))
      (λ _.
        if-elim Done (run a.insert_freed a.insert text b.session).1 (λ _ e. absurd (omega arith))
          (λ sent.
            if-elim Done (commit_rows is_last a b.cnt after_insert).1 (λ _ e. absurd (omega arith))
              (λ committed e.
                let (freeing, all, calls, fine) =
                  run-sends a.insert_freed a.insert text b.session sent in
                let (later, commit, more) =
                  commit_rows-sends is_last a b.cnt after_insert committed in
                ((later, freeing, commit, all, more ∙ ap (λ c. later ++ c) calls), fine))))
  where
    text : Str
    text = take b.ptr (text_of b.buffer)

    after_insert : Bulk
    after_insert = record b { session = (run a.insert_freed a.insert text b.session).0 }

    Done : Bulk × ℕ → Type 0
    Done o =
        o.1 ≡ 0 → Sent text b.session.calls o.0.session.calls × (is_none a.insert.status ≡ true)

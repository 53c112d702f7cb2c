-- ===== src/Log/Replay.antt =====
-- src/sb_logger.c: what the printed lines and the pending count stand for.
use mathlib.Core.List.{append_assoc, append-nil}
use sysbench.Prelude.{
  ℕ, zero, suc, ◌+◌, ◌<◌, ◌≡◌, ◌∙◌, refl, sym, ap, subst, true, false, List, [], ◌∷◌, ◌++◌, arith,
  ltb, u32, u32_mod, length, replicate, if◌then◌else◌, inl, inr, Bool-cases,
}
use sysbench.Prelude.Text.{Str, str_eq, str_eq_iff}
use sysbench.Log.{
  Priority, priority_value, Line, message, repeated, fill_buffer, LogState, repeated_lines,
  print_text, get_msg_prefix, text_handler_process, log_text,
}

-- Calls of log_text, in their order.
abbrev pub log_all : LogState → List (Priority × Str) → LogState × List Line
log_all s [] = (s, [])
log_all s (c ∷ calls) =
    let (s', lines) = log_text s c.0 c.1 in
    let (s'', rest) = log_all s' calls in (s'', lines ++ rest)

-- The texts of the calls that the verbosity lets through.
abbrev pub texts : ℕ → List (Priority × Str) → List Str
texts verbosity [] = []
texts verbosity (c ∷ calls) =
    let rest = texts verbosity calls in
    if ltb verbosity (priority_value c.0) then rest else fill_buffer c.1 ∷ rest

-- The texts that lines stand for, after the text `last`.
abbrev pub expand : Str → List Line → List Str
expand last [] = []
expand last (message prefix text ∷ lines) = text ∷ expand text lines
expand last (repeated n ∷ lines) = replicate n last ++ expand last lines

-- The repetitions that have not been printed yet.
abbrev pub pending : LogState → List Str
pending s = replicate s.text_cnt s.text_buf

one_more :
    (n : ℕ) (t : Str) (rest : List Str) → replicate n t ++ (t ∷ rest) ≡ replicate (suc n) t ++ rest
one_more zero t rest = refl
one_more (suc n) t rest = ap (λ xs. t ∷ xs) (one_more n t rest)

expand-repeated_lines :
    (n : ℕ) (last prefix text : Str) (rest : List Line)
    → expand last ((repeated_lines n ++ (message prefix text ∷ [])) ++ rest)
      ≡ replicate n last ++ (text ∷ expand text rest)
expand-repeated_lines zero last prefix text rest = refl
expand-repeated_lines (suc n) last prefix text rest = refl

-- The pending repetitions and new texts are what the lines and the repetitions then pending stand
-- for.
abbrev pub Tells : LogState → List Str → LogState × List Line → Type 0
Tells s new p = pending s ++ new ≡ expand s.text_buf p.1 ++ pending p.0

module _ (s : LogState) (p : Priority) (f : Str) (on : s.initialized ≡ true) where
  log_text-quiet : ltb s.verbosity (priority_value p) ≡ true → log_text s p f ≡ (s, [])
  unfolding log_text text_handler_process
  log_text-quiet quiet = simp (on, quiet) refl

  log_text-same :
      ltb s.verbosity (priority_value p) ≡ false
      → str_eq s.text_buf (fill_buffer f) ≡ true
      → suc s.text_cnt < u32_mod
      → log_text s p f ≡ (record s { text_cnt = suc s.text_cnt }, [])
  unfolding log_text text_handler_process print_text
  log_text-same loud same fit =
      let small : u32 (s.text_cnt + 1) ≡ suc s.text_cnt = omega arith in
      simp (on, loud, same, small) refl

  log_text-other :
      ltb s.verbosity (priority_value p) ≡ false
      → str_eq s.text_buf (fill_buffer f) ≡ false
      → log_text s p f ≡ (
        record s { text_cnt = 0; text_buf = fill_buffer f },
        repeated_lines s.text_cnt ++ (message (get_msg_prefix p) (fill_buffer f) ∷ []),
      )
  unfolding log_text text_handler_process print_text
  log_text-other loud other = simp (on, loud, other) refl

-- A call and the calls after it.
call-Tells :
    (s : LogState) (c : Priority × Str) (calls : List (Priority × Str)) (new : List Str)
    (r : LogState × List Line)
    → texts s.verbosity (c ∷ calls) ≡ new
    → log_text s c.0 c.1 ≡ r
    → Tells s new ((log_all r.0 calls).0, r.1 ++ (log_all r.0 calls).1)
    → Tells s (texts s.verbosity (c ∷ calls)) (log_all s (c ∷ calls))
call-Tells s c calls new r e f h =
    subst (λ xs. Tells s xs (log_all s (c ∷ calls))) (sym e)
      (subst (λ q. Tells s new ((log_all q.0 calls).0, q.1 ++ (log_all q.0 calls).1)) (sym f) h)

-- Once the logger is initialised, and with fewer than 2^32 calls of log_text together with the
-- repetitions not yet printed: the texts at the verbosity, after those repetitions, are exactly the
-- texts that the printed lines stand for, a line of repetitions standing for as many of the text
-- before it, followed by the repetitions that are then pending.
pub log_all-Tells :
    (s : LogState) (calls : List (Priority × Str))
    → s.initialized ≡ true
    → s.text_cnt + length calls < u32_mod
    → Tells s (texts s.verbosity calls) (log_all s calls)
log_all-Tells s [] on fit = append-nil (pending s)
log_all-Tells s (c ∷ calls) on fit =
    let t = fill_buffer c.1 in
    let k = texts s.verbosity calls in
    elim (Bool-cases (ltb s.verbosity (priority_value c.0))) [
      | inl quiet ↦
          call-Tells s c calls k (s, []) (rw (texts, quiet)) (log_text-quiet s c.0 c.1 on quiet)
            (log_all-Tells s calls on (omega arith))
      | inr loud ↦ elim (Bool-cases (str_eq s.text_buf t)) [
        | inl same ↦
            let e : s.text_buf ≡ t = (str_eq_iff s.text_buf t).0 same in
            let s' : LogState = record s { text_cnt = suc s.text_cnt } in
            call-Tells s c calls (t ∷ k) (s', []) (rw (texts, loud))
              (log_text-same s c.0 c.1 on loud same (omega arith))
              (ap (λ x. pending s ++ (x ∷ k)) (sym e)
                ∙ one_more s.text_cnt s.text_buf k
                ∙ log_all-Tells s' calls on (omega arith))
        | inr other ↦
            let s' : LogState = record s { text_cnt = 0; text_buf = t } in
            let prefix = get_msg_prefix c.0 in
            let (s'', lines) = log_all s' calls in
            call-Tells s c calls (t ∷ k) (s', repeated_lines s.text_cnt ++ (message prefix t ∷ []))
              (rw (texts, loud)) (log_text-other s c.0 c.1 on loud other)
              (ap (λ xs. pending s ++ (t ∷ xs)) (log_all-Tells s' calls on (omega arith))
                ∙ sym (append_assoc (pending s) (t ∷ expand t lines) (pending s''))
                ∙ ap (λ xs. xs ++ pending s'')
                    (sym (expand-repeated_lines s.text_cnt s.text_buf prefix t lines)))
      ]
    ]

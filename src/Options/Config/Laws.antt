-- ===== src/Options/Config/Laws.antt =====
-- src/sb_options.c: what read_config makes of a line that write_config wrote.
use mathlib.Core.List.{append-nil, append_assoc}
use sysbench.Prelude.{
  ℕ, ◌-◌, ◌≤◌, ◌<◌, ◌≡◌, ◌≢◌, ◌∙◌, refl, sym, ap, subst, true, false, none, some, List, [], ◌∷◌,
  ◌++◌, arith, ◌==◌, ◌||◌, length, length-append,
}
use sysbench.Prelude.Text.{Str, IsCString, is_space}
use sysbench.Options.Name.{same_name-blank, IsCString-blank}
use sysbench.Options.Table.{
  Opt, new_option, find_option, add_option-nil, find_option-singleton, name-new_option,
}
use sysbench.Options.Config.{
  between, bare, is_quote, emit, split_line, scan_values, read_line, max_str_len, pieces,
  read_pieces, read_config, write_values, write_option,
}

-- A character that a bare value may hold, and one that it may begin with.
abbrev pub IsBare : ℕ → Type 0
IsBare c = (c ≢ b',') × (is_space c ≡ false)

abbrev pub IsFirst : ℕ → Type 0
IsFirst c = IsBare c × (c ≢ b'#') × (is_quote c ≡ false)

abbrev pub AllBare : Str → Type 0
AllBare [] = Unit {0}
AllBare (c ∷ s) = IsBare c × AllBare s

-- Values with no blank, comma, quote or comment sign that would need quoting.
abbrev pub IsPlain : Str → Type 0
IsPlain [] = ⊥
IsPlain (c ∷ s) = IsFirst c × AllBare s

abbrev pub AllPlain : List Str → Type 0
AllPlain [] = Unit {0}
AllPlain (v ∷ values) = IsPlain v × AllPlain values

scan_values-bare :
    (acc s t : Str) → AllBare s → scan_values (bare acc) (s ++ t) ≡ scan_values (bare (acc ++ s)) t
unfolding scan_values
scan_values-bare acc [] t h = rw append-nil
scan_values-bare acc (c ∷ s) t h =
    let comma : (c == b',') ≡ false = ground arith in
    rw (comma, h.0.1)
      (scan_values-bare (acc ++ (c ∷ [])) s t h.1
        ∙ ap (λ a. scan_values (bare a) t) (append_assoc acc (c ∷ []) s))

scan_values-plain :
    (c : ℕ) (s t : Str)
    → IsPlain (c ∷ s)
    → scan_values between (c ∷ s ++ t) ≡ scan_values (bare (c ∷ s)) t
unfolding scan_values
scan_values-plain c s t h =
    let comma : (c == b',') ≡ false = ground arith in
    let hash : (c == b'#') ≡ false = ground arith in
    rw (h.0.0.1, hash, h.0.2, comma) (scan_values-bare (c ∷ []) s t h.1)

scan_values-write_values :
    (values : List Str)
    → AllPlain values
    → scan_values between (write_values values ++ (10 ∷ [])) ≡ (values, true)
unfolding write_values scan_values
scan_values-write_values [] h = refl
scan_values-write_values ([] ∷ values) h = absurd h.0
scan_values-write_values ((c ∷ s) ∷ []) h = scan_values-plain c s (10 ∷ []) h.0
scan_values-write_values ((c ∷ s) ∷ w ∷ values) h =
    ap (λ t. scan_values between (c ∷ t))
      (append_assoc s (b',' ∷ b' ' ∷ write_values (w ∷ values)) (10 ∷ []))
    ∙ scan_values-plain c s (b',' ∷ b' ' ∷ write_values (w ∷ values) ++ (10 ∷ [])) h.0
    ∙ ap (emit (some (c ∷ s))) (scan_values-write_values (w ∷ values) h.1)

abbrev pub NoDelimiter : Str → Type 0
NoDelimiter [] = Unit {0}
NoDelimiter (c ∷ s) = (c ≢ b'=') × NoDelimiter s

split_line-append :
    (name t : Str)
    → NoDelimiter name
    → split_line (name ++ (b' ' ∷ b'=' ∷ t)) ≡ some (name ++ (b' ' ∷ []), t)
unfolding split_line
split_line-append [] t h = refl
split_line-append (c ∷ name) t h =
    let other : (c == b'=') ≡ false = ground arith in rw (other, split_line-append name t h.1)

-- What the loop makes of the line as one piece.
read_line-write_option :
    (o : Opt)
    → IsCString o.name
    → NoDelimiter o.name
    → AllPlain o.values
    → let (opts, fine) = read_pieces [] (write_option o ∷ []) in
      (fine ≡ true)
      × (opts ≡ record (new_option (o.name ++ (b' ' ∷ []))) { values = o.values } ∷ [])
      × (find_option opts o.name ≡ none)
unfolding read_pieces write_option
read_line-write_option o h hd hv =
    let name = o.name ++ (b' ' ∷ []) in
    let split = split_line-append o.name (b' ' ∷ write_values o.values ++ (10 ∷ [])) hd in
    rw (split, read_line, scan_values-write_values o.values hv, add_option-nil name)
      (
        refl,
        refl,
        find_option-singleton (record (new_option name) { values = o.values }) o.name
            (rw name-new_option (same_name-blank o.name h (IsCString-blank o.name h))),
      )

abbrev pub NoNewline : Str → Type 0
NoNewline [] = Unit {0}
NoNewline (c ∷ s) = (c ≢ 10) × NoNewline s

-- A line that fits in the buffer is one piece.
pieces-line :
    (room : ℕ) (s : Str)
    → NoNewline s
    → length s ≤ room
    → pieces room (s ++ (10 ∷ [])) ≡ (s ++ (10 ∷ [])) ∷ []
unfolding pieces
pieces-line room [] h fits = refl
pieces-line room (c ∷ s) h fits =
    let middle : (c == 10 || room == 0) ≡ false = ground (arith, h.0, fits) in
    rw (middle, pieces-line (room - 1) s h.1 (omega arith)) refl

NoNewline-append : (s t : Str) → NoNewline s → NoNewline t → NoNewline (s ++ t)
NoNewline-append [] t h k = k
NoNewline-append (c ∷ s) t h k = (h.0, NoNewline-append s t h.1 k)

-- A blank is no part of a bare value, so neither is a newline.
bare-NoNewline : (s : Str) → AllBare s → NoNewline s
bare-NoNewline [] h = tt
bare-NoNewline (c ∷ s) h = (λ e. absurd (cc (ap is_space e)), bare-NoNewline s h.1)

plain-NoNewline : (s : Str) → IsPlain s → NoNewline s
plain-NoNewline [] h = absurd h
plain-NoNewline (c ∷ s) h = bare-NoNewline (c ∷ s) (h.0.0, h.1)

write_values-NoNewline : (values : List Str) → AllPlain values → NoNewline (write_values values)
unfolding write_values
write_values-NoNewline [] h = tt
write_values-NoNewline (v ∷ []) h = plain-NoNewline v h.0
write_values-NoNewline (v ∷ w ∷ values) h =
    NoNewline-append v _ (plain-NoNewline v h.0)
      (omega arith, (omega arith, write_values-NoNewline (w ∷ values) h.1))

write_option-piece :
    (o : Opt)
    → NoNewline o.name
    → AllPlain o.values
    → length (write_option o) < max_str_len
    → pieces (max_str_len - 2) (write_option o) ≡ write_option o ∷ []
unfolding write_option
write_option-piece o hn hv fits =
    let line = o.name ++ (b' ' ∷ b'=' ∷ b' ' ∷ write_values o.values) in
    let same : write_option o ≡ line ++ (10 ∷ []) =
      sym (append_assoc o.name (b' ' ∷ b'=' ∷ b' ' ∷ write_values o.values) (10 ∷ [])) in
    let none_inside : NoNewline line =
      NoNewline-append o.name _ hn
        (omega arith, (omega arith, (omega arith, write_values-NoNewline o.values hv))) in
    let short : length line ≤ max_str_len - 2 =
      omega (arith, fits, ap length same, length-append line (10 ∷ [])) in
    subst (λ t. pieces (max_str_len - 2) t ≡ t ∷ []) (sym same)
      (pieces-line (max_str_len - 2) line none_inside short)

-- A line of at most 255 bytes with its newline that write_config writes for an option whose name
-- has no delimiter and no newline, with plain values, is read back with the same values, but under
-- the option's name with a blank after it, so that the option itself is not found in what was read.
pub read_config-write_option :
    (o : Opt)
    → IsCString o.name
    → NoDelimiter o.name
    → NoNewline o.name
    → AllPlain o.values
    → length (write_option o) < max_str_len
    → let (opts, fine) = read_config [] (write_option o) in
      (fine ≡ true)
      × (opts ≡ record (new_option (o.name ++ (b' ' ∷ []))) { values = o.values } ∷ [])
      × (find_option opts o.name ≡ none)
unfolding read_config
read_config-write_option o h hd hn hv fits =
    rw (write_option-piece o hn hv fits) (read_line-write_option o h hd hv)

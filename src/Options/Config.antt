-- ===== src/Options/Config.antt =====
-- src/sb_options.c: reading and writing configuration files. A file is its text, without a NUL.
pub mod Laws
use mathlib.Core.Option
use sysbench.Prelude.{
  ℕ, zero, suc, ◌+◌, ◌-◌, ◌≡◌, ◌≢◌, ◌∙◌, refl, sym, ap, Bool, true, false, ◌&&◌, ◌||◌, Option, none,
  some, List, [], ◌∷◌, ◌++◌, arith, if◌then◌else◌, ◌==◌, leb, inl, inr, Bool-cases, modify, length,
}
use sysbench.Prelude.Text.{Str, IsCString, is_space}
use sysbench.Options.Name.{same_name, convert_dashes, same_name_iff}
use sysbench.Options.Table.{ArgType, Opt, new_option, find_option, add_option}

-- strchr(buf, '='), and the line cut in two there
pub split_line : Str → Option (Str × Str)
split_line [] = none
split_line (c ∷ s) =
    let rest = Option.map (λ (p : Str × Str). (c ∷ p.0, p.1)) (split_line s) in
    if c == b'=' then some ([], s) else rest

-- Where the scan of a line's values stands: between values, in a bare or a quoted value with what
-- is read of it, after a quoted value, or in a comment.
pub data Mode : Type 0 where
  between : Mode
  bare : Str → Mode
  quoted : ℕ → Str → Mode
  after_quote : Mode
  comment : Mode

unfoldable pub is_quote : ℕ → Bool
is_quote c = c == 39 || c == 34

-- One character: the next mode, and the value that is added.
pub step : Mode → ℕ → Mode × Option Str
unfolding is_quote
step between c =
    if is_space c
    then (between, none)
    else if c == b'#'
    then (comment, none)
    else if is_quote c
    then (quoted c [], none)
    else if c == b','
    then (between, some [])
    else (bare (c ∷ []), none)
step (bare acc) c =
    if c == b',' || is_space c then (between, some acc) else (bare (acc ++ (c ∷ [])), none)
step (quoted q acc) c =
    if c == q then (after_quote, some acc) else (quoted q (acc ++ (c ∷ [])), none)
step after_quote c = if c == b',' then (between, none) else (after_quote, none)
step comment c = (comment, none)

-- The end of the line; a quoted value may not be open there.
pub finish : Mode → List Str × Bool
finish between = ([], true)
finish (bare acc) = (acc ∷ [], true)
finish (quoted q acc) = ([], false)
finish after_quote = ([], true)
finish comment = ([], true)

abbrev pub emit : Option Str → List Str × Bool → List Str × Bool
emit none r = r
emit (some v) (values, fine) = (v ∷ values, fine)

-- The values of a line, and false at "unexpected EOL".
pub scan_values : Mode → Str → List Str × Bool
unfolding step finish
scan_values m [] = finish m
scan_values m (c ∷ s) = let (m', out) = step m c in emit out (scan_values m' s)

-- What a line does to the option that it names.
abbrev pub store_values : List Opt × ℕ → List Str → List Opt
store_values (opts, i) values = modify opts i (λ o. record o { values = values })

-- A line, cut at its delimiter: one that has none is skipped.
pub read_line : List Opt → Option (Str × Str) → List Opt × Bool
unfolding scan_values
read_line opts none = (opts, true)
read_line opts (some (name, text)) =
    let (values, fine) = scan_values between text in
    (store_values (add_option opts name) values, fine)

-- MAXSTRLEN
abbrev pub max_str_len : ℕ
max_str_len = 256

-- A byte in front of the first piece.
abbrev pub join : ℕ → List Str → List Str
join c [] = (c ∷ []) ∷ []
join c (piece ∷ pieces) = (c ∷ piece) ∷ pieces

-- The pieces that fgets(buf, MAXSTRLEN, fp) returns one after the other: each ends with its
-- newline, or after MAXSTRLEN - 1 bytes; `room` bytes may still follow the next one in its piece.
pub pieces : ℕ → Str → List Str
pieces room [] = []
pieces room (c ∷ s) =
    let ends = c == 10 || room == 0 in
    let rest = pieces (if ends then max_str_len - 2 else room - 1) s in
    if ends then (c ∷ []) ∷ rest else join c rest

-- The loop of read_config over the pieces: the options, and whether it returns them or NULL.
pub read_pieces : List Opt → List Str → List Opt × Bool
unfolding split_line read_line
read_pieces opts [] = (opts, true)
read_pieces opts (line ∷ lines) =
    let (opts', fine) = read_line opts (split_line line) in
    let rest = read_pieces opts' lines in if fine then rest else (opts', false)

-- read_config
pub read_config : List Opt → Str → List Opt × Bool
unfolding pieces read_pieces
read_config opts text = read_pieces opts (pieces (max_str_len - 2) text)

-- The values of an option as write_config prints them.
pub write_values : List Str → Str
write_values [] = []
write_values (v ∷ []) = v
write_values (v ∷ w ∷ values) = v ++ (b',' ∷ b' ' ∷ write_values (w ∷ values))

unfoldable pub write_option : Opt → Str
unfolding write_values
write_option o = o.name ++ (b' ' ∷ b'=' ∷ b' ' ∷ write_values o.values ++ (10 ∷ []))

-- write_config: the lines of the options that are not ignored, which it marks ignored.
pub write_config : List Opt → List Opt × List Str
unfolding write_option
write_config [] = ([], [])
write_config (o ∷ opts) =
    let (opts', lines) = write_config opts in
    if o.ignore
    then (o ∷ opts', lines)
    else (record o { ignore = true } ∷ opts', write_option o ∷ lines)

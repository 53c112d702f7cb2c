-- ===== src/Command/Init.antt =====
-- src/sysbench.c: what init reads from the options, in the order of the code. `none` is either
-- exit(EXIT_FAILURE) within sb_get_value_int or the return of 1; main ends with EXIT_FAILURE both
-- ways.
pub mod Times
pub mod Sorting
use mathlib.Core.Option
use sysbench.Prelude.{
  ℕ, zero, suc, ◌+◌, ◌-◌, ◌*◌, ◌^◌, ◌%◌, ◌≡◌, Bool, true, false, Option, none, some, List, [], ◌∷◌,
  if◌then◌else◌, ◌==◌, ltb, leb, ◌>>=◌, u32, u64, u32_mod, u64_mod,
}
use sysbench.Prelude.Int.{ℤ, pos, negsuc, ltb_ℤ, to_word}
use sysbench.Prelude.Text.{Str, codes}
use sysbench.Options.Table.{Opt}
use sysbench.Options.Size.{strtol}
use sysbench.Options.Set.{get_value_int, values_of}
use sysbench.Timer.{ns_per_sec}

-- The fields of sb_globals_t that the limits of a run stand in.
pub record Limits : Type 0 where
  pub threads : ℕ
  pub max_events : ℕ
  pub warmup_time : ℤ
  pub max_time_ns : ℕ

-- SEC2NS
abbrev pub sec2ns : ℤ → ℕ
sec2ns s = u64 (to_word u64_mod s * ns_per_sec)

-- max_time_ns, once the time limit and the warmup are read
unfoldable pub time_limit : ℤ → ℤ → ℕ
time_limit max_time warmup_time =
    if ltb 0 (sec2ns max_time)
    then (if ltb_ℤ (pos 0) warmup_time
        then u64 (sec2ns max_time + sec2ns warmup_time)
        else sec2ns max_time)
    else 0

-- The first part of init: the threads, the events, the warmup and the time. The thread's timeout
-- is read too, but not checked.
unfoldable pub init_limits : List Opt → Option Limits
unfolding time_limit
init_limits opts = get_value_int opts (codes "threads") >>= λ threads.
    get_value_int opts (codes "thread-init-timeout") >>= λ timeout.
    if to_word u32_mod threads == 0
    then none
    else (get_value_int opts (codes "events") >>= λ events.
        get_value_int opts (codes "warmup-time") >>= λ warmup.
        if ltb_ℤ warmup (pos 0)
        then none
        else (get_value_int opts (codes "time") >>= λ max_time. some (record {
          threads = to_word u32_mod threads;
          max_events = to_word u64_mod events;
          warmup_time = warmup;
          max_time_ns = time_limit max_time warmup;
        })))

-- MAX_CHECKPOINTS and INT_MAX
abbrev pub max_checkpoints : ℕ
max_checkpoints = 256

abbrev pub int_max : ℕ
int_max = 2147483647

-- *endptr != '\0' || res < 0 || res > INT_MAX, negated
accept_checkpoint : ℤ × Str → Option ℕ
accept_checkpoint (pos n, []) = if leb n int_max then some n else none
accept_checkpoint (negsuc n, rest) = none
accept_checkpoint (pos n, c ∷ rest) = none

unfoldable pub read_checkpoint : Str → Option ℕ
unfolding strtol accept_checkpoint
read_checkpoint v = accept_checkpoint (strtol v)

-- The loop over --report-checkpoints, with `n` of them read.
unfoldable pub checkpoints_from : ℕ → List Str → Option (List ℕ)
unfolding read_checkpoint
checkpoints_from n [] = some []
checkpoints_from n (v ∷ values) = read_checkpoint v >>= λ c.
    if ltb max_checkpoints (suc n)
    then none
    else Option.map (λ rest. c ∷ rest) (checkpoints_from (suc n) values)

-- (int) (a - b), on unsigned ints
unfoldable pub checkpoint_cmp : ℕ → ℕ → ℤ
checkpoint_cmp a b =
    let d = u32 (a + u32_mod - b) in if ltb d (2 ^ 31) then pos d else negsuc (u32_mod - d - 1)

-- qsort of libc, on an array of unsigned ints
abbrev pub Qsort : Type 0
Qsort = (ℕ → ℕ → ℤ) → List ℕ → List ℕ

-- if (sb_globals.n_checkpoints > 0) qsort(...)
sort_some : Qsort → List ℕ → List ℕ
unfolding checkpoint_cmp
sort_some qsort [] = []
sort_some qsort (c ∷ checkpoints) = qsort checkpoint_cmp (c ∷ checkpoints)

-- The part of init about --report-checkpoints.
unfoldable pub init_checkpoints : Qsort → List Opt → Option (List ℕ)
unfolding checkpoints_from sort_some
init_checkpoints qsort opts =
    Option.map (sort_some qsort) (checkpoints_from 0 (values_of opts (codes "report-checkpoints")))

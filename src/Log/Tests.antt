-- ===== src/Log/Tests.antt =====
-- Messages at concrete texts.
use sysbench.Prelude.{◌≡◌, refl, true, List, [], ◌∷◌, arith}
use sysbench.Prelude.Text.{Str, codes}
use sysbench.Log.{Priority, notice, debug, fatal, message, repeated, LogState, log_text}
use sysbench.Log.Replay.{log_all, texts, Tells, log_all-Tells}

abbrev ready : LogState
ready = record { initialized = true; verbosity = 3; text_cnt = 0; text_buf = [] }

abbrev calls : List (Priority × Str)
calls =
    (notice, codes "a")
    ∷ (fatal, codes "b")
    ∷ (notice, codes "b")
    ∷ (debug, codes "d")
    ∷ (notice, codes "b")
    ∷ (notice, codes "c")
    ∷ (notice, codes "c")
    ∷ []

printed :
    (log_all ready calls).1
    ≡ message [] (codes "a\n")
      ∷ message (codes "FATAL: ") (codes "b\n")
      ∷ repeated 2
      ∷ message [] (codes "c\n")
      ∷ []
unfolding log_text
printed = refl

log_all-Tells_example : Tells ready (texts 3 calls) (log_all ready calls)
log_all-Tells_example = log_all-Tells ready calls refl (omega arith)

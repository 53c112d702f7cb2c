-- ===== src/Command/Value.antt =====
-- src/sysbench.c: an option given as --name=value.
use sysbench.Prelude.{◌≡◌, false, [], ◌∷◌, ◌==◌}
use sysbench.Prelude.Text.{Str}

-- No '=' in a name.
abbrev pub NoEquals : Str → Type 0
NoEquals [] = Unit {0}
NoEquals (c ∷ s) = ((c == b'=') ≡ false) × NoEquals s

-- ===== src/Prelude/Word.antt =====
-- Unsigned machine words: the C types uint64_t and uint32_t (unsigned int), whose arithmetic wraps.
use Prim.Native.Nat.{ℕ, ◌+◌, ◌-◌, ◌%◌, ◌^◌}

abbrev pub u64_mod : ℕ
u64_mod = 2 ^ 64

abbrev pub u32_mod : ℕ
u32_mod = 2 ^ 32

abbrev pub u64 : ℕ → ℕ
u64 n = n % u64_mod

abbrev pub u32 : ℕ → ℕ
u32 n = n % u32_mod

-- a - b on uint64_t, for operands in range
abbrev pub sub64 : ℕ → ℕ → ℕ
sub64 a b = (a + u64_mod - b) % u64_mod

-- a - b on uint32_t, for operands in range
abbrev pub sub32 : ℕ → ℕ → ℕ
sub32 a b = (a + u32_mod - b) % u32_mod

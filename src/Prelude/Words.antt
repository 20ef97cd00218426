-- ===== src/Prelude/Words.antt =====
-- Machine integers as native numbers: a counter of w bits is its bit pattern, and wraps.
use Prim.Native.Nat.{ℕ, ◌+◌, ◌%◌, ◌^◌}

abbrev pub u8 : ℕ → ℕ
u8 n = n % 2 ^ 8

abbrev pub u16 : ℕ → ℕ
u16 n = n % 2 ^ 16

abbrev pub u32 : ℕ → ℕ
u32 n = n % 2 ^ 32

-- `++` on a 16-bit and on a 32-bit counter.
abbrev pub inc16 : ℕ → ℕ
inc16 n = u16 (n + 1)

abbrev pub inc32 : ℕ → ℕ
inc32 n = u32 (n + 1)

abbrev pub u64 : ℕ → ℕ
u64 n = n % 2 ^ 64

abbrev pub inc64 : ℕ → ℕ
inc64 n = u64 (n + 1)

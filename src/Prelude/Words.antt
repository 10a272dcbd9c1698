-- ===== src/Prelude/Words.antt =====
-- Machine words as native numbers: the wrap of each width is written out.
use Prim.Native.Nat.{ℕ, ◌+◌, ◌-◌, ◌%◌}

-- Conversions to uint8_t, uint16_t and uint32_t.
abbrev pub u8 : ℕ → ℕ
u8 n = n % 256

abbrev pub u16 : ℕ → ℕ
u16 n = n % 65536

abbrev pub u32 : ℕ → ℕ
u32 n = n % 4294967296

-- uint32_t `a - b`, which wraps.
abbrev pub sub32 : ℕ → ℕ → ℕ
sub32 a b = (a + (4294967296 - b % 4294967296)) % 4294967296

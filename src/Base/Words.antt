-- ===== src/Base/Words.antt =====
-- Unsigned words: arithmetic that wraps at 2 ^ 32, and fields of bytes.
use Prim.Native.Nat.{ℕ, ◌+◌, ◌-◌, ◌*◌, ◌/◌, ◌%◌, ◌^◌}

abbrev pub u32_mod : ℕ
u32_mod = 2 ^ 32

abbrev pub add32 : ℕ → ℕ → ℕ
add32 a b = (a + b) % u32_mod

abbrev pub sub32 : ℕ → ℕ → ℕ
sub32 a b = (a + u32_mod - b) % u32_mod

-- A big-endian 16-bit field.
abbrev pub be16 : ℕ → ℕ → ℕ
be16 hi lo = hi * 256 + lo

-- The bytes of a 16-bit word swapped: `htons` and `ntohs` on a little-endian machine.
abbrev pub bswap16 : ℕ → ℕ
bswap16 v = be16 (v % 256) (v / 256)

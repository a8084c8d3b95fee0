-- ===== src/Base/Words.antt =====
-- Little-endian words in memory, on the wire of both links, and the byte swaps.
use Prim.Native.Nat.{ℕ, ◌+◌, ◌*◌, ◌/◌, ◌%◌, ◌^◌, ◌<◌}
use mathlib.Core.Path.{◌≡◌}
use mathlib.Core.List.{List, [], ◌∷◌}
use native.Mathlib.Omega.{arith}
use bindkey_esp.Base.Lists.{get_or}

-- `u32::to_le_bytes`, and the two bytes of a `u16` in memory.
unfoldable pub u32_le : ℕ → List ℕ
u32_le x = x % 256 ∷ x / 256 % 256 ∷ x / 65536 % 256 ∷ x / 16777216 % 256 ∷ []

unfoldable pub u16_le : ℕ → List ℕ
u16_le x = x % 256 ∷ x / 256 % 256 ∷ []

-- `u32::from_le_bytes` of the four bytes of a buffer from `i` on.
unfoldable pub u32_at : ℕ → List ℕ → ℕ
u32_at i buf =
    get_or buf i 0
    + get_or buf (i + 1) 0 * 256
    + get_or buf (i + 2) 0 * 65536
    + get_or buf (i + 3) 0 * 16777216

unfoldable pub u16_at : ℕ → List ℕ → ℕ
u16_at i buf = get_or buf i 0 + get_or buf (i + 1) 0 * 256

-- `__builtin_bswap32` and `__builtin_bswap16`, which take what fits their width.
unfoldable pub bswap32 : ℕ → ℕ
bswap32 x = x % 256 * 16777216 + x / 256 % 256 * 65536 + x / 65536 % 256 * 256 + x / 16777216 % 256

unfoldable pub bswap16 : ℕ → ℕ
bswap16 x = x % 256 * 256 + x / 256 % 256

-- A swapped word lies in memory with its highest byte first.
pub u32_le-bswap32 :
    (x : ℕ)
    → x < 2 ^ 32
    → u32_le (bswap32 x) ≡ x / 16777216 ∷ x / 65536 % 256 ∷ x / 256 % 256 ∷ x % 256 ∷ []
unfolding u32_le bswap32
u32_le-bswap32 x h = ground arith

pub u16_le-bswap16 : (x : ℕ) → u16_le (bswap16 x) ≡ x / 256 % 256 ∷ x % 256 ∷ []
unfolding u16_le bswap16
u16_le-bswap16 x = ground arith

pub bswap32-bswap32 : (x : ℕ) → x < 2 ^ 32 → bswap32 (bswap32 x) ≡ x
unfolding bswap32
bswap32-bswap32 x h = omega arith

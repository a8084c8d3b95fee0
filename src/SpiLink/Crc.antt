-- ===== src/SpiLink/Crc.antt =====
-- `spi_crc32` of src/spi_link/protocol.rs: the reflected CRC-32 of a payload, bit by bit.
pub mod Detects
use bindkey_esp.Base.{ℕ, zero, suc, ◌-◌, ◌/◌, ◌%◌, ◌^◌, bit_xor, List, [], ◌∷◌, ◌==◌, if◌then◌else◌}

abbrev pub polynomial : ℕ
polynomial = 0xEDB8_8320

-- `crc & 1` is the remainder by 2, and `crc >> 1` the quotient.
unfoldable pub crc_round : ℕ → ℕ
crc_round crc = if crc % 2 == 0 then crc / 2 else bit_xor (crc / 2) polynomial

-- `for _ in 0..8`, by the rounds left.
unfoldable pub crc_rounds : ℕ → ℕ → ℕ
unfolding crc_round
crc_rounds zero crc = crc
crc_rounds (suc n) crc = crc_rounds n (crc_round crc)

unfoldable pub crc_bytes : ℕ → List ℕ → ℕ
unfolding crc_rounds
crc_bytes crc [] = crc
crc_bytes crc (b ∷ rest) = crc_bytes (crc_rounds 8 (bit_xor crc b)) rest

-- `!crc` on a `u32`.
abbrev pub complement : ℕ → ℕ
complement crc = 2 ^ 32 - 1 - crc

unfoldable pub spi_crc32 : List ℕ → ℕ
unfolding crc_bytes
spi_crc32 payload = complement (crc_bytes 0xFFFF_FFFF payload)

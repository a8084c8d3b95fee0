-- ===== src/SpiLink/Crc/Detects.antt =====
-- What the CRC of src/spi_link/protocol.rs detects: a round loses nothing of the register, since
-- the polynomial sets the top bit exactly when the bit shifted out was set.
use bindkey_esp.Base.{
  ℕ, zero, suc, ◌+◌, ◌*◌, ◌/◌, ◌%◌, ◌^◌, ◌<◌, bit_xor, ◌≡◌, ◌≢◌, sym, ap, ◌∙◌, inl, inr, List, [],
  ◌∷◌, ◌++◌, arith, ◌==◌, Bool-cases, ltb, if◌then◌else◌,
}
use bindkey_esp.Base.Bits.{bit_xor_comm, bit_xor_cancel, bit_xor-lt, le-bit_xor}
use bindkey_esp.SpiLink.Crc.{polynomial, crc_round, crc_rounds, crc_bytes, spi_crc32}

-- Every entry fits a byte.
abbrev pub IsBytes : List ℕ → Type 0
IsBytes [] = Unit
IsBytes (b ∷ bs) = (b < 256) × IsBytes bs

-- The register before a round, from the register after it.
unround : ℕ → ℕ
unround crc = if ltb crc (2 ^ 31) then crc * 2 else bit_xor crc polynomial * 2 + 1

unround-crc_round : (crc : ℕ) → crc < 2 ^ 32 → unround (crc_round crc) ≡ crc
unfolding crc_round unround
unround-crc_round crc h = elim (Bool-cases (crc % 2 == 0)) [
  | inl even ↦ ground arith
  | inr odd ↦ ground (
    arith,
    le-bit_xor 31 (crc / 2) polynomial (omega arith) (omega arith),
    bit_xor_cancel (crc / 2) polynomial,
  )
]

crc_round-lt : (crc : ℕ) → crc < 2 ^ 32 → crc_round crc < 2 ^ 32
unfolding crc_round
crc_round-lt crc h = ground (arith, bit_xor-lt 32 (crc / 2) polynomial (omega arith) (omega arith))

crc_rounds-lt : (n crc : ℕ) → crc < 2 ^ 32 → crc_rounds n crc < 2 ^ 32
unfolding crc_rounds
crc_rounds-lt zero crc h = h
crc_rounds-lt (suc n) crc h = crc_rounds-lt n (crc_round crc) (crc_round-lt crc h)

crc_round-injective : (a b : ℕ) → a < 2 ^ 32 → b < 2 ^ 32 → crc_round a ≡ crc_round b → a ≡ b
crc_round-injective a b ha hb e =
    sym (unround-crc_round a ha) ∙ ap unround e ∙ unround-crc_round b hb

crc_rounds-injective :
    (n a b : ℕ) → a < 2 ^ 32 → b < 2 ^ 32 → crc_rounds n a ≡ crc_rounds n b → a ≡ b
unfolding crc_rounds
crc_rounds-injective zero a b ha hb e = e
crc_rounds-injective (suc n) a b ha hb e =
    crc_round-injective a b ha hb
      (crc_rounds-injective n (crc_round a) (crc_round b) (crc_round-lt a ha) (crc_round-lt b hb) e)

abbrev absorb : ℕ → ℕ → ℕ
absorb crc b = crc_rounds 8 (bit_xor crc b)

absorb-lt : (crc b : ℕ) → crc < 2 ^ 32 → b < 256 → absorb crc b < 2 ^ 32
absorb-lt crc b h k = crc_rounds-lt 8 (bit_xor crc b) (bit_xor-lt 32 crc b h (omega arith))

-- Absorbing one byte is one to one in the register and in the byte.
absorb-injective_crc :
    (a c b : ℕ) → a < 2 ^ 32 → c < 2 ^ 32 → b < 256 → absorb a b ≡ absorb c b → a ≡ c
absorb-injective_crc a c b ha hc hb e =
    let same : bit_xor a b ≡ bit_xor c b =
      crc_rounds-injective 8 (bit_xor a b) (bit_xor c b) (bit_xor-lt 32 a b ha (omega arith))
        (bit_xor-lt 32 c b hc (omega arith)) e in
    sym (bit_xor_cancel a b) ∙ ap (λ (x : ℕ). bit_xor x b) same ∙ bit_xor_cancel c b

absorb-injective_byte :
    (crc a b : ℕ) → crc < 2 ^ 32 → a < 256 → b < 256 → absorb crc a ≡ absorb crc b → a ≡ b
absorb-injective_byte crc a b h ha hb e =
    let same : bit_xor crc a ≡ bit_xor crc b =
      crc_rounds-injective 8 (bit_xor crc a) (bit_xor crc b) (bit_xor-lt 32 crc a h (omega arith))
        (bit_xor-lt 32 crc b h (omega arith)) e in
    let turned : bit_xor a crc ≡ bit_xor b crc = bit_xor_comm a crc ∙ same ∙ bit_xor_comm crc b in
    sym (bit_xor_cancel a crc) ∙ ap (λ (x : ℕ). bit_xor x crc) turned ∙ bit_xor_cancel b crc

crc_bytes-lt : (crc : ℕ) (bs : List ℕ) → crc < 2 ^ 32 → IsBytes bs → crc_bytes crc bs < 2 ^ 32
unfolding crc_bytes
crc_bytes-lt crc [] h k = h
crc_bytes-lt crc (b ∷ bs) h k = crc_bytes-lt (absorb crc b) bs (absorb-lt crc b h k.0) k.1

crc_bytes-injective :
    (bs : List ℕ) (a c : ℕ)
    → a < 2 ^ 32
    → c < 2 ^ 32
    → IsBytes bs
    → crc_bytes a bs ≡ crc_bytes c bs
    → a ≡ c
unfolding crc_bytes
crc_bytes-injective [] a c ha hc k e = e
crc_bytes-injective (b ∷ bs) a c ha hc k e = absorb-injective_crc a c b ha hc k.0 (
    crc_bytes-injective bs (absorb a b) (absorb c b) (absorb-lt a b ha k.0) (absorb-lt c b hc k.0)
      k.1 e)

crc_bytes_one_byte :
    (pre : List ℕ) (crc a b : ℕ) (post : List ℕ)
    → crc < 2 ^ 32
    → IsBytes pre
    → a < 256
    → b < 256
    → IsBytes post
    → crc_bytes crc (pre ++ a ∷ post) ≡ crc_bytes crc (pre ++ b ∷ post)
    → a ≡ b
unfolding crc_bytes
crc_bytes_one_byte [] crc a b post h hp ha hb k e = absorb-injective_byte crc a b h ha hb (
    crc_bytes-injective post (absorb crc a) (absorb crc b) (absorb-lt crc a h ha)
      (absorb-lt crc b h hb) k e)
crc_bytes_one_byte (p ∷ pre) crc a b post h hp ha hb k e =
    crc_bytes_one_byte pre (absorb crc p) a b post (absorb-lt crc p h hp.0) hp.1 ha hb k e

IsBytes-append : (xs ys : List ℕ) → IsBytes xs → IsBytes ys → IsBytes (xs ++ ys)
IsBytes-append [] ys h k = k
IsBytes-append (x ∷ xs) ys h k = (h.0, IsBytes-append xs ys h.1 k)

-- The checksum of a payload of bytes fits a `u32`.
pub spi_crc32-lt : (bs : List ℕ) → spi_crc32 bs < 2 ^ 32
unfolding spi_crc32
spi_crc32-lt bs = omega arith

-- Two payloads of bytes that differ in exactly one byte have different checksums, wherever the byte
-- stands: no corruption confined to one byte passes the check.
pub spi_crc32_detects_byte :
    (pre : List ℕ) (a b : ℕ) (post : List ℕ)
    → IsBytes pre
    → a < 256
    → b < 256
    → IsBytes post
    → a ≢ b
    → spi_crc32 (pre ++ a ∷ post) ≢ spi_crc32 (pre ++ b ∷ post)
unfolding spi_crc32
spi_crc32_detects_byte pre a b post hp ha hb k ne e =
    ne (crc_bytes_one_byte pre 0xFFFF_FFFF a b post (omega arith) hp ha hb k registers)
  where
    registers : crc_bytes 0xFFFF_FFFF (pre ++ a ∷ post) ≡ crc_bytes 0xFFFF_FFFF (pre ++ b ∷ post)
    registers = omega (
      arith,
      e,
      crc_bytes-lt 0xFFFF_FFFF (pre ++ a ∷ post) (omega arith)
          (IsBytes-append pre (a ∷ post) hp (ha, k)),
      crc_bytes-lt 0xFFFF_FFFF (pre ++ b ∷ post) (omega arith)
          (IsBytes-append pre (b ∷ post) hp (hb, k)),
    )

-- ===== src/SpiLink/Serve/Integrity.antt =====
-- The check of a write's payload in src/spi_link/transport.rs, from the bytes on the wire to the
-- call of the drive.
use mathlib.Core.Option
use bindkey_esp.Base.{
  ℕ, zero, suc, ◌+◌, ◌^◌, ◌<◌, ◌≡◌, ◌≢◌, refl, sym, ap, ◌∙◌, arith, true, false, some, List, [],
  ◌∷◌, ◌++◌, err, EspCodes, invalid_crc, get_or, length, take, take-append, ◌==◌,
}
use bindkey_esp.Base.Words.{u32_le, u32_at}
use bindkey_esp.MassStorage.Types.{MscApi}
use bindkey_esp.SpiLink.Protocol.{Header}
use bindkey_esp.SpiLink.Crc.{spi_crc32}
use bindkey_esp.SpiLink.Crc.Detects.{IsBytes, spi_crc32-lt, spi_crc32_detects_byte}
use bindkey_esp.SpiLink.Chunk.{Chunk}
use bindkey_esp.SpiLink.Link.{LinkSt, Peer}
use bindkey_esp.SpiLink.Serve.{accept_payload, store_payload, answer}

get_or-append :
    (xs ys : List ℕ) (n i d : ℕ) → n ≡ length xs → get_or (xs ++ ys) (n + i) d ≡ get_or ys i d
get_or-append [] ys n i d e = ap (λ j. get_or ys j d) (omega (arith, e))
get_or-append (x ∷ xs) ys zero i d e = absurd (omega arith)
get_or-append (x ∷ xs) ys (suc n) i d e =
    let step : suc n + i ≡ suc (n + i) = omega arith in
    ap (λ j. get_or (x ∷ (xs ++ ys)) j d) step ∙ get_or-append xs ys n i d (omega (arith, e))

-- A word behind a prefix is read back.
pub u32_at-append :
    (xs ys : List ℕ) (n v : ℕ) → n ≡ length xs → v < 2 ^ 32 → u32_at n (xs ++ (u32_le v ++ ys)) ≡ v
unfolding u32_at u32_le
u32_at-append xs ys n v e h =
    let here : n ≡ n + 0 = omega arith in
    omega (
      arith,
      ap (λ j. get_or (xs ++ (u32_le v ++ ys)) j 0) here
          ∙ get_or-append xs (u32_le v ++ ys) n 0 0 e,
      get_or-append xs (u32_le v ++ ys) n 1 0 e,
      get_or-append xs (u32_le v ++ ys) n 2 0 e,
      get_or-append xs (u32_le v ++ ys) n 3 0 e,
    )

module _ {W : Type 0} (api : MscApi W) (codes : EspCodes) (peer : Peer) where
  -- A payload that arrives as it was sent, with its checksum behind it, is stored: the drive is
  -- given exactly the bytes that the master sent.
  pub accept_payload_intact :
      (req : Header) (t0 : ℕ) (c : Chunk) (payload rest : List ℕ) (s : LinkSt W)
      → c.len ≡ length payload
      → s.rx_dma ≡ payload ++ (u32_le (spi_crc32 payload) ++ rest)
      → accept_payload api codes peer req t0 c s ≡ store_payload api codes peer req t0 c payload s
  unfolding accept_payload
  accept_payload_intact req t0 c payload rest s e received =
      let taken : take c.len s.rx_dma ≡ payload =
        rw received (take-append payload (u32_le (spi_crc32 payload) ++ rest) c.len e) in
      let word : u32_at c.len s.rx_dma ≡ spi_crc32 payload =
        rw received
          (u32_at-append payload rest c.len (spi_crc32 payload) e (spi_crc32-lt payload)) in
      let same : (u32_at c.len s.rx_dma == spi_crc32 (take c.len s.rx_dma)) ≡ true =
        rw (taken, word) (ground arith) in
      rw (same, taken) refl

  -- A payload of which one byte was changed on the wire, with the checksum of the payload that was
  -- sent, never reaches the drive: the drive and the driver's fields are as before, and the answer
  -- is the code for a wrong checksum.
  pub accept_payload_damaged :
      (req : Header) (t0 : ℕ) (c : Chunk) (pre : List ℕ) (a b : ℕ) (post rest : List ℕ)
      (s : LinkSt W)
      → IsBytes pre
      → a < 256
      → b < 256
      → IsBytes post
      → a ≢ b
      → c.len ≡ length (pre ++ a ∷ post)
      → s.rx_dma ≡ (pre ++ a ∷ post) ++ (u32_le (spi_crc32 (pre ++ b ∷ post)) ++ rest)
      → (accept_payload api codes peer req t0 c s ≡ answer api codes peer req (err invalid_crc) s)
        × (Option.map (λ r. r.1.sys.world) (accept_payload api codes peer req t0 c s)
            ≡ some s.sys.world)
        × (Option.map (λ r. r.1.sys.usb) (accept_payload api codes peer req t0 c s)
            ≡ some s.sys.usb)
  unfolding accept_payload answer
  accept_payload_damaged req t0 c pre a b post rest s hp ha hb k ne e received =
      let taken : take c.len s.rx_dma ≡ pre ++ a ∷ post =
        rw received
          (take-append (pre ++ a ∷ post) (u32_le (spi_crc32 (pre ++ b ∷ post)) ++ rest) c.len e) in
      let word : u32_at c.len s.rx_dma ≡ spi_crc32 (pre ++ b ∷ post) = rw received (
        u32_at-append (pre ++ a ∷ post) rest c.len (spi_crc32 (pre ++ b ∷ post)) e
          (spi_crc32-lt (pre ++ b ∷ post))) in
      let differs = spi_crc32_detects_byte pre b a post hp hb ha k (λ same. ne (sym same)) in
      let refused : (u32_at c.len s.rx_dma == spi_crc32 (take c.len s.rx_dma)) ≡ false =
        rw (taken, word) (ground (arith, differs)) in
      (rw refused refl, rw refused refl, rw refused refl)

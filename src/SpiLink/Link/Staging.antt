-- ===== src/SpiLink/Link/Staging.antt =====
-- What a staged response is, byte by byte, and what the transfer that follows puts on the wire
-- (src/spi_link/transport.rs, `arm_response_with_arg1`, `arm_response_from_block_buf`,
-- `send_response`).
use mathlib.Core.List.{append-nil}
use mathlib.Core.Option
use bindkey_esp.Base.{
  ℕ, ◌+◌, ◌-◌, ◌≤◌, ◌<◌, min, ◌≡◌, refl, ap, sym, inl, inr, false, List, [], ◌∷◌, ◌++◌, arith, ◌==◌,
  some, Bool-cases, length, take, length-zero, take-length, length-take, take-overwrite_front,
  take-overwrite_two, take-overwrite_three,
}
use bindkey_esp.Base.Words.{u32_le}
use bindkey_esp.MassStorage.Types.{gpio_level, spi_transfer}
use bindkey_esp.SpiLink.Protocol.{Header, header_bytes, max_payload, crc_len}
use bindkey_esp.SpiLink.Crc.{spi_crc32}
use bindkey_esp.SpiLink.Link.{
  hdr_len, rx_len, pin_ready, Link, LinkSt, Peer, response_header, arm_response_with_arg1,
  arm_response_from_block_buf, send_response,
}

-- The buffers have their sizes, and the staged length fits.
pub record IsSized (l : Link) : Type 0 where
  pub resp : length l.resp_buf ≡ rx_len
  pub block : length l.block_buf ≡ max_payload
  pub staged_fits : l.resp_len ≤ rx_len

-- The bytes that the next transfer will send.
abbrev pub staged : Link → List ℕ
staged l = take l.resp_len l.resp_buf

pub length-header_bytes : (h : Header) → length (header_bytes h) ≡ hdr_len
unfolding header_bytes
length-header_bytes h = refl

pub length-u32_le : (x : ℕ) → length (u32_le x) ≡ crc_len
unfolding u32_le
length-u32_le x = refl

-- With buffers of their sizes, a staged response is its header followed by the whole payload, where
-- the payload fits the response buffer behind the header.
pub staged-arm_response_with_arg1 :
    (req : Header) (status arg1 : ℕ) (payload : List ℕ) {l : Link}
    → IsSized l
    → length payload ≤ rx_len - hdr_len
    → staged (arm_response_with_arg1 req status arg1 payload l)
      ≡ header_bytes (response_header req status arg1) ++ payload
unfolding arm_response_with_arg1
staged-arm_response_with_arg1 req status arg1 payload {l} v fits =
    elim (Bool-cases (min (length payload) (rx_len - hdr_len) == 0)) [
      | inl is_empty ↦
          let empty : payload ≡ [] = length-zero payload (ground arith) in
          rw (is_empty, empty, append-nil)
            (take-overwrite_front hdr_len hdr l.resp_buf (sym (length-header_bytes h))
              (omega (arith, v.resp)))
      | inr is_full ↦
          let whole : take (min (length payload) (rx_len - hdr_len)) payload ≡ payload =
            take-length payload (min (length payload) (rx_len - hdr_len)) (omega arith) in
          rw (is_full, whole)
            (take-overwrite_two hdr_len (hdr_len + min (length payload) (rx_len - hdr_len)) hdr
              payload l.resp_buf (sym (length-header_bytes h)) (omega arith)
              (omega (arith, v.resp)))
    ]
  where
    h : Header
    h = response_header req status arg1

    hdr : List ℕ
    hdr = header_bytes h

-- With buffers of their sizes, a staged read of at least one byte and at most a full payload is its
-- header, the data, and the checksum of exactly that data.
pub staged-arm_response_from_block_buf :
    (req : Header) (status arg1 len : ℕ) {l : Link}
    → IsSized l
    → 0 < len
    → len ≤ max_payload
    → staged (arm_response_from_block_buf req status arg1 len l)
      ≡ (header_bytes (response_header req status arg1) ++ take len l.block_buf)
        ++ u32_le (spi_crc32 (take len l.block_buf))
unfolding arm_response_from_block_buf
staged-arm_response_from_block_buf req status arg1 len {l} v pos fits =
    let is_full : (min len max_payload == 0) ≡ false = ground arith in
    let whole : min len max_payload ≡ len = omega arith in
    let count : len ≡ length (take len l.block_buf) =
      omega (arith, length-take len l.block_buf, v.block) in
    rw (is_full, whole)
      (take-overwrite_three hdr_len (hdr_len + len) (hdr_len + len + crc_len) (header_bytes h)
        (take len l.block_buf) (u32_le (spi_crc32 (take len l.block_buf))) l.resp_buf
        (sym (length-header_bytes h)) (omega (arith, count))
        (omega (arith, length-u32_le (spi_crc32 (take len l.block_buf)))) (omega (arith, v.resp)))
  where
    h : Header
    h = response_header req status arg1

-- With buffers of their sizes and a staged length that fits, a sent response raises READY, clocks
-- out exactly the staged bytes, lowers READY again, and does nothing else to the outside.
pub send_response_lem :
    {W : Type 0}
    → (peer : Peer) (s : LinkSt W) → IsSized s.link
    → length s.tx_dma ≡ rx_len
    → Option.map (λ r. r.1.sys.effects) (send_response peer s)
      ≡ some (
          gpio_level pin_ready 0
          ∷ spi_transfer s.link.resp_len (staged s.link)
          ∷ gpio_level pin_ready 1
          ∷ s.sys.effects)
unfolding send_response
send_response_lem peer s v tx_sized =
    ap
      (λ sent. some (
        gpio_level pin_ready 0
        ∷ spi_transfer s.link.resp_len sent
        ∷ gpio_level pin_ready 1
        ∷ s.sys.effects))
      (take-overwrite_front s.link.resp_len (staged s.link) s.tx_dma
        (omega (arith, length-take s.link.resp_len s.link.resp_buf, v.resp, v.staged_fits))
        (omega (arith, tx_sized, v.staged_fits)))

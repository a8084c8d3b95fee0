-- ===== src/SpiLink/Serve/Read.antt =====
-- A READ of src/spi_link/transport.rs from the request to the bytes on the wire.
pub mod Request
use mathlib.Core.Option
use native.Mathlib.Nat.{mul-le-mul_left}
use bindkey_esp.Base.{
  ℕ, not, ◌+◌, ◌^◌, ◌<◌, ◌≤◌, min, ◌≡◌, refl, sym, ap, ◌∙◌, arith, true, Bool-cases, inl, inr, some,
  List, ◌∷◌, ◌++◌, Result, ok, EspCodes, length, take, overwrite, length-take, length-overwrite,
  take-overwrite_front, Option, ◌==◌,
}
use bindkey_esp.Base.Words.{u32_le}
use bindkey_esp.MassStorage.Types.{MscApi, rejoin, Effect, gpio_level, spi_transfer}
use bindkey_esp.MassStorage.BlockDevice.{capacity_unknown, bd_read_blocks}
use bindkey_esp.MassStorage.BlockDevice.Guards.{bd_blocks-Servable}
use bindkey_esp.SpiLink.Protocol.{Header, header_bytes, max_payload, crc_len}
use bindkey_esp.SpiLink.Crc.{spi_crc32}
use bindkey_esp.SpiLink.Chunk.{Chunk, compute_chunk}
use bindkey_esp.SpiLink.Chunk.Bounds.{compute_chunk-InBounds}
use bindkey_esp.SpiLink.Link.{
  hdr_len, rx_len, pin_ready, Link, LinkSt, Peer, response_header, arm_response_from_block_buf,
  send_response, timer,
}
use bindkey_esp.SpiLink.Link.Staging.{
  IsSized, staged, staged-arm_response_from_block_buf, send_response_lem,
}
use bindkey_esp.SpiLink.Serve.Steps.{chunk-Servable, after_timer, chosen, skipped}
use bindkey_esp.SpiLink.Serve.{
  count_read, chunk_of, ensure_capacity_known, read_response, serve_read_chunk, read_present,
  serve_read,
}

-- Staging a read keeps the buffers' sizes.
arm_response_from_block_buf-IsSized :
    (req : Header) (status arg1 len : ℕ) {l : Link}
    → IsSized l
    → IsSized (arm_response_from_block_buf req status arg1 len l)
unfolding arm_response_from_block_buf
arm_response_from_block_buf-IsSized req status arg1 len {l} v =
    elim (Bool-cases (min len max_payload == 0)) [
      | inl short ↦ rw short (record {
        resp = length-overwrite 0 _ l.resp_buf ∙ v.resp;
        block = v.block;
        staged_fits = omega arith;
      })
      | inr long ↦ rw long (record {
        resp =
            length-overwrite _ _ _
            ∙ length-overwrite _ _ _
            ∙ length-overwrite 0 _ l.resp_buf
            ∙ v.resp;
        block = v.block;
        staged_fits = omega arith;
      })
    ]

resp_len-arm_response_from_block_buf :
    (req : Header) (status arg1 len : ℕ) (l : Link)
    → 0 < len
    → len ≤ max_payload
    → (arm_response_from_block_buf req status arg1 len l).resp_len ≡ hdr_len + len + crc_len
unfolding arm_response_from_block_buf
resp_len-arm_response_from_block_buf req status arg1 len l some_bytes fits = ground arith

module _ {W : Type 0} (api : MscApi W) (codes : EspCodes) (peer : Peer) where
  -- The link when the data of a read has been fetched and counted.
  abbrev fetched : ℕ → LinkSt W → List ℕ → Link
  fetched t0 s out = record s.link {
    block_buf = overwrite 0 out s.link.block_buf;
    perf =
        count_read t0 (peer.time_us s.timer_reads) (peer.time_us (s.timer_reads + 1)) s.link.perf;
  }

  -- The state in which the response is sent.
  abbrev ready_to_answer : ℕ → LinkSt W → Header → Chunk → List ℕ → W → LinkSt W
  ready_to_answer t0 s req c out w = record s {
    sys = record s.sys { world = w };
    link = arm_response_from_block_buf req codes.esp_ok c.len c.len (fetched t0 s out);
    timer_reads = s.timer_reads + 1 + 1;
  }

  serve_read_chunk-staged :
      (req : Header) (t0 : ℕ) (s : LinkSt W) (c : Chunk) (out : List ℕ) (w : W)
      → bd_read_blocks api c.lba c.nblocks (take c.len s.link.block_buf) s.sys
        ≡ some (ok (ok tt, out), record s.sys { world = w })
      → serve_read_chunk api codes peer req t0 (ok c) s
        ≡ send_response peer (ready_to_answer t0 s req c out w)
  unfolding serve_read_chunk read_response timer
  serve_read_chunk-staged req t0 s c out w answered = rw answered refl

  -- Behind the checks, with the chunk or the error that the request gives.
  pub serve_read-chunk :
      (req : Header) (s : LinkSt W) (r : Result Chunk)
      → s.sys.global_set ≡ true
      → not (capacity_unknown s.sys.usb) ≡ true
      → chunk_of api codes peer req s.sys ≡ r
      → serve_read api codes peer req s
        ≡ serve_read_chunk api codes peer req (peer.time_us s.timer_reads) r (after_timer s)
  unfolding serve_read read_present ensure_capacity_known timer
  serve_read-chunk req s r present known chunk =
      chosen s.sys.global_set _ (read_present api codes peer req (peer.time_us s.timer_reads))
        (after_timer s) present
      ∙ skipped (not (capacity_unknown s.sys.usb)) _ _ (after_timer s) known
      ∙ ap (λ r. serve_read_chunk api codes peer req (peer.time_us s.timer_reads) r (after_timer s))
          chunk

  serve_read-staged :
      (req : Header) (s : LinkSt W) (c : Chunk) (out : List ℕ) (w : W)
      → s.sys.global_set ≡ true
      → not (capacity_unknown s.sys.usb) ≡ true
      → chunk_of api codes peer req s.sys ≡ ok c
      → bd_read_blocks api c.lba c.nblocks (take c.len s.link.block_buf) s.sys
        ≡ some (ok (ok tt, out), record s.sys { world = w })
      → serve_read api codes peer req s
        ≡ send_response peer
            (ready_to_answer (peer.time_us s.timer_reads) (after_timer s) req c out w)
  serve_read-staged req s c out w present known chunk answered =
      serve_read-chunk req s (ok c) present known chunk
      ∙ serve_read_chunk-staged req (peer.time_us s.timer_reads) (after_timer s) c out w answered

  -- A READ that the drive serves is answered with its data: with the driver there, an open device,
  -- a drive of less than 2 ^ 32 blocks, a chunk that is accepted and buffers of their sizes, and a
  -- device that fills the buffer for exactly that chunk's sectors, the firmware raises READY,
  -- sends the response's header with the number of bytes, the data, and the checksum of the data,
  -- and lowers READY; nothing else happens to the outside.
  pub serve_read_lem :
      (req : Header) (s : LinkSt W) (h : ℕ) {c : Chunk} {out : List ℕ} {w : W}
      → s.sys.global_set ≡ true
      → s.sys.usb.handle ≡ some h
      → s.sys.usb.block_count < 2 ^ 32
      → IsSized s.link
      → length s.tx_dma ≡ rx_len
      → compute_chunk s.sys.usb.block_size s.sys.usb.block_count req.arg0 req.arg1 req.reserved
        ≡ ok c
      → api.read10 h (take c.len s.link.block_buf) c.lba c.nblocks s.sys.usb.block_size s.sys.world
        ≡ some (ok (ok tt, out), w)
      → Option.map (λ r. r.1.sys.effects) (serve_read api codes peer req s)
        ≡ some (
            gpio_level pin_ready 0
            ∷ spi_transfer (hdr_len + c.len + crc_len) (
                (header_bytes (response_header req codes.esp_ok c.len) ++ out)
                ++ u32_le (spi_crc32 out))
            ∷ gpio_level pin_ready 1
            ∷ s.sys.effects)
  unfolding chunk_of
  serve_read_lem req s h {c} {out} {w} present open_device fits sized tx_sized accepted answered =
      let v =
        compute_chunk-InBounds s.sys.usb.block_size s.sys.usb.block_count req.arg0 req.arg1
          req.reserved accepted in
      let buffer : length (take c.len s.link.block_buf) ≡ c.len =
        omega (arith, length-take c.len s.link.block_buf, sized.block, v.fits) in
      let filled : length out ≡ c.len =
        api.length-read10 h _ c.lba c.nblocks _ s.sys.world w (ok tt) out answered ∙ buffer in
      let known : not (capacity_unknown s.sys.usb) ≡ true =
        ground (arith, v.block_size_pos, v.nonempty, v.on_drive) in
      let read =
        (bd_blocks-Servable api s.sys (take c.len s.link.block_buf)
          (chunk-Servable s.sys h open_device fits v buffer)).1
        ∙ ap (λ o. rejoin s.sys o) answered in
      let t = ready_to_answer (peer.time_us s.timer_reads) (after_timer s) req c out w in
      let sized_now : IsSized (fetched (peer.time_us s.timer_reads) (after_timer s) out) = record {
        resp = sized.resp;
        block = length-overwrite 0 out s.link.block_buf ∙ sized.block;
        staged_fits = sized.staged_fits;
      } in
      let some_bytes : 0 < c.len =
        omega (arith, v.bytes, v.nonempty, mul-le-mul_left c.nblocks v.block_size_pos) in
      let copied : take c.len (overwrite 0 out s.link.block_buf) ≡ out =
        take-overwrite_front c.len out s.link.block_buf (sym filled)
          (omega (arith, sized.block, v.fits)) in
      let sent =
        send_response_lem peer t
          (arm_response_from_block_buf-IsSized req codes.esp_ok c.len c.len sized_now) tx_sized in
      let bytes =
        staged-arm_response_from_block_buf req codes.esp_ok c.len c.len sized_now some_bytes v.fits
        ∙ ap (answer_bytes req c.len) copied in
      ap (λ o. Option.map (λ r. r.1.sys.effects) o)
        (serve_read-staged req s c out w present known accepted read)
      ∙ sent
      ∙ ap (λ n. answer_effects s n (staged t.link))
          (resp_len-arm_response_from_block_buf req codes.esp_ok c.len c.len _ some_bytes v.fits)
      ∙ ap (answer_effects s (hdr_len + c.len + crc_len)) bytes
    where
      answer_bytes : Header → ℕ → List ℕ → List ℕ
      answer_bytes r n content =
          (header_bytes (response_header r codes.esp_ok n) ++ content) ++ u32_le (spi_crc32 content)

      answer_effects : LinkSt W → ℕ → List ℕ → Option (List Effect)
      answer_effects s n bytes =
          some
            (gpio_level pin_ready 0 ∷ spi_transfer n bytes ∷ gpio_level pin_ready 1 ∷ s.sys.effects)

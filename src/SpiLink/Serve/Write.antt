-- ===== src/SpiLink/Serve/Write.antt =====
-- A WRITE of src/spi_link/transport.rs from the payload on the wire to the drive, and its answer.
pub mod Request
use mathlib.Core.Option
use mathlib.Core.List.{append-nil, append_assoc}
use bindkey_esp.Base.{
  ℕ, ◌+◌, ◌^◌, ◌<◌, ◌≤◌, ◌≡◌, refl, sym, ap, ◌∙◌, arith, true, not, none, some, Option, Result,
  overwrite-front, List, [], ◌∷◌, ◌++◌, ok, EspCodes, length, take, drop, replicate, overwrite,
  length-append, length-replicate, take-length,
}
use bindkey_esp.Base.Action.{resume, from_result}
use bindkey_esp.Base.Words.{u32_le}
use bindkey_esp.MassStorage.Types.{MscApi, Effect, gpio_level, spi_transfer, rejoin}
use bindkey_esp.MassStorage.BlockDevice.{capacity_unknown, bd_write_blocks}
use bindkey_esp.MassStorage.BlockDevice.Guards.{bd_blocks-Servable}
use bindkey_esp.SpiLink.Protocol.{Header, header_bytes, crc_len}
use bindkey_esp.SpiLink.Crc.{spi_crc32}
use bindkey_esp.SpiLink.Chunk.{Chunk, compute_chunk}
use bindkey_esp.SpiLink.Chunk.Bounds.{compute_chunk-InBounds}
use bindkey_esp.SpiLink.Link.{
  hdr_len, rx_len, pin_ready, Link, LinkSt, Peer, response_header, arm_response_with_arg1, timer,
  send_response, spi_slave_xfer, ready_high, ready_low,
}
use bindkey_esp.SpiLink.Link.Staging.{
  IsSized, staged, length-u32_le, staged-arm_response_with_arg1, send_response_lem,
}
use bindkey_esp.SpiLink.Serve.{
  count_write, chunk_of, ensure_capacity_known, receive_payload, accept_payload, store_payload,
  write_response, serve_write_chunk, write_present, serve_write,
}
use bindkey_esp.SpiLink.Link.Acknowledge.{
  arm_response_with_arg1-IsSized, resp_len-arm_response_with_arg1,
}
use bindkey_esp.SpiLink.Serve.Integrity.{accept_payload_intact}
use bindkey_esp.SpiLink.Serve.Steps.{chunk-Servable, after_timer, chosen, skipped}
use bindkey_esp.SpiLink.Serve.Payload.{
  clocked_in, acknowledging, store_payload-staged, serve_write_chunk_lem, serve_write-chunk,
  arrived,
}

-- The libraries' world and what has been done to the outside after an action.
abbrev pub outside : {W : Type 0} → Option (Result (Unit {0}) × LinkSt W) → Option (W × List Effect)
outside none = none
outside (some (r, s)) = some (s.sys.world, s.sys.effects)

outside-send_response :
    {W : Type 0}
    → (peer : Peer) (s : LinkSt W)
    → outside (send_response peer s)
      ≡ Option.map {B = W × List Effect}
          (λ es. (s.sys.world, es))
          (Option.map (λ r. r.1.sys.effects) (send_response peer s))
unfolding send_response
outside-send_response peer s = refl

module _ {W : Type 0} (api : MscApi W) (codes : EspCodes) (peer : Peer) where
  -- The state in which a WRITE that is stored is acknowledged.
  pub serve_write-acknowledged :
      (req : Header) (s : LinkSt W) (h : ℕ) {c : Chunk} (payload : List ℕ) {w : W}
      → s.sys.global_set ≡ true
      → s.sys.usb.handle ≡ some h
      → s.sys.usb.block_count < 2 ^ 32
      → length s.rx_dma ≡ rx_len
      → compute_chunk s.sys.usb.block_size s.sys.usb.block_count req.arg0 req.arg1 req.reserved
        ≡ ok c
      → length payload ≡ c.len
      → (peer.transfer s.transfers).result ≡ ok tt
      → (peer.transfer s.transfers).bytes ≡ payload ++ u32_le (spi_crc32 payload)
      → api.write10 h payload c.lba c.nblocks s.sys.usb.block_size s.sys.world
        ≡ some (ok (ok tt), w)
      → serve_write api codes peer req s
        ≡ send_response peer (
            acknowledging api codes peer
              (peer.time_us s.timer_reads)
              (clocked_in api codes peer (after_timer s) (c.len + crc_len))
              req
              c
              w)
  unfolding chunk_of
  serve_write-acknowledged req s h {c} payload {w} present open_device fits rx_sized accepted count
        done sent answered =
      let v =
        compute_chunk-InBounds s.sys.usb.block_size s.sys.usb.block_count req.arg0 req.arg1
          req.reserved accepted in
      let known : not (capacity_unknown s.sys.usb) ≡ true =
        ground (arith, v.block_size_pos, v.nonempty, v.on_drive) in
      let t0 = peer.time_us s.timer_reads in
      let t = clocked_in api codes peer (after_timer s) (c.len + crc_len) in
      let stored =
        (bd_blocks-Servable api t.sys payload (chunk-Servable t.sys h open_device fits v count)).0
        ∙ ap (λ o. resume (rejoin t.sys o) from_result) answered in
      serve_write-chunk api codes peer req s (ok c) present known accepted
      ∙ serve_write_chunk_lem api codes peer req t0 c (after_timer s) done
      ∙ accept_payload_intact api codes peer req t0 c payload (drop (c.len + crc_len) s.rx_dma) t
          (sym count)
          (arrived payload s.rx_dma (peer.transfer s.transfers).bytes (spi_crc32 payload)
            (c.len + crc_len) sent (omega (arith, count)) (omega (arith, rx_sized, v.fits)))
      ∙ store_payload-staged api codes peer req t0 c payload t w stored

  -- A WRITE whose payload arrives intact is stored and acknowledged: with the driver there, an
  -- open device, a drive of less than 2 ^ 32 blocks, a chunk that is accepted, buffers of their
  -- sizes, a transfer that succeeds with the chunk's bytes and their checksum, and a device that
  -- takes those bytes for the chunk's sectors, the device is given exactly these bytes once, and
  -- the firmware clocks the payload in with READY high, then raises READY again, sends the
  -- response's header with the number of bytes, and lowers READY; nothing else happens to the
  -- outside.
  pub serve_write_lem :
      (req : Header) (s : LinkSt W) (h : ℕ) {c : Chunk} (payload : List ℕ) {w : W}
      → s.sys.global_set ≡ true
      → s.sys.usb.handle ≡ some h
      → s.sys.usb.block_count < 2 ^ 32
      → IsSized s.link
      → length s.rx_dma ≡ rx_len
      → length s.tx_dma ≡ rx_len
      → compute_chunk s.sys.usb.block_size s.sys.usb.block_count req.arg0 req.arg1 req.reserved
        ≡ ok c
      → length payload ≡ c.len
      → (peer.transfer s.transfers).result ≡ ok tt
      → (peer.transfer s.transfers).bytes ≡ payload ++ u32_le (spi_crc32 payload)
      → api.write10 h payload c.lba c.nblocks s.sys.usb.block_size s.sys.world
        ≡ some (ok (ok tt), w)
      → outside (serve_write api codes peer req s)
        ≡ some (
          w,
          gpio_level pin_ready 0
              ∷ spi_transfer hdr_len (header_bytes (response_header req codes.esp_ok c.len))
              ∷ gpio_level pin_ready 1
              ∷ gpio_level pin_ready 0
              ∷ spi_transfer (c.len + crc_len) (take (c.len + crc_len) (replicate rx_len 0))
              ∷ gpio_level pin_ready 1
              ∷ s.sys.effects,
        )
  unfolding chunk_of
  serve_write_lem req s h {c} payload {w} present open_device fits sized rx_sized tx_sized accepted
        count done sent answered =
      let t0 = peer.time_us s.timer_reads in
      let t = clocked_in api codes peer (after_timer s) (c.len + crc_len) in
      let run =
        serve_write-acknowledged req s h payload present open_device fits rx_sized accepted count
          done sent answered in
      let counted : Link = record s.link {
        perf =
            count_write t0 (peer.time_us (s.timer_reads + 1)) (peer.time_us (s.timer_reads + 1 + 1))
              s.link.perf;
      } in
      let sized_now : IsSized counted = record {
        resp = sized.resp;
        block = sized.block;
        staged_fits = sized.staged_fits;
      } in
      let answer = acknowledging api codes peer t0 t req c w in
      let replied =
        send_response_lem peer answer
          (arm_response_with_arg1-IsSized req codes.esp_ok c.len [] sized_now)
          (length-replicate (length s.tx_dma) 0 ∙ tx_sized) in
      let bytes =
        staged-arm_response_with_arg1 req codes.esp_ok c.len [] sized_now (omega arith)
        ∙ append-nil _ in
      ap outside run
      ∙ outside-send_response peer answer
      ∙ ap (Option.map {B = W × List Effect} (λ es. (w, es))) replied
      ∙ ap (λ n. whole n (staged answer.link) (length s.tx_dma))
          (resp_len-arm_response_with_arg1 req codes.esp_ok c.len counted)
      ∙ ap (λ b. whole hdr_len b (length s.tx_dma)) bytes
      ∙ ap (whole hdr_len (header_bytes (response_header req codes.esp_ok c.len))) tx_sized
    where
      whole : ℕ → List ℕ → ℕ → Option (W × List Effect)
      whole n b zeros = some (
        w,
        gpio_level pin_ready 0
            ∷ spi_transfer n b
            ∷ gpio_level pin_ready 1
            ∷ gpio_level pin_ready 0
            ∷ spi_transfer (c.len + crc_len) (take (c.len + crc_len) (replicate zeros 0))
            ∷ gpio_level pin_ready 1
            ∷ s.sys.effects,
      )

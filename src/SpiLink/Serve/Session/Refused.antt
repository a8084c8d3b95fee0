-- ===== src/SpiLink/Serve/Session/Refused.antt =====
-- Requests that the service loop of src/spi_link/transport.rs answers with an error.
use bindkey_esp.Base.{
  ℕ, ◌+◌, ◌^◌, ◌<◌, ◌≡◌, ◌≢◌, refl, ap, sym, ◌∙◌, arith, not, true, false, List, ◌∷◌, ◌++◌, ◌==◌,
  Result, err, ok, EspErr, invalid_crc, EspCodes, length, take, drop, replicate, length-overwrite,
  length-replicate, take-append,
}
use bindkey_esp.Base.Words.{u32_le, u32_at}
use bindkey_esp.MassStorage.Types.{MscApi}
use bindkey_esp.MassStorage.BlockDevice.{capacity_unknown}
use bindkey_esp.MassStorage.BlockDevice.Store.{Disk}
use bindkey_esp.SpiLink.Protocol.{Header, max_payload, crc_len}
use bindkey_esp.SpiLink.Crc.{spi_crc32}
use bindkey_esp.SpiLink.Chunk.{Chunk, compute_chunk}
use bindkey_esp.SpiLink.Chunk.Bounds.{compute_chunk-InBounds}
use bindkey_esp.SpiLink.Link.{rx_len, LinkSt, Peer, spi_slave_xfer, ready_high, ready_low}
use bindkey_esp.SpiLink.Serve.{
  chunk_of, answer, serve_read, serve_read_chunk, serve_write, serve_write_chunk, refuse_write,
  receive_payload, accept_payload,
}
use bindkey_esp.SpiLink.Serve.Integrity.{u32_at-append}
use bindkey_esp.SpiLink.Serve.Steps.{IsServing, IsServing-move, after_timer}
use bindkey_esp.SpiLink.Serve.Read.{serve_read-chunk}
use bindkey_esp.SpiLink.Serve.Payload.{
  clocked_in, serve_write-chunk, serve_write_chunk_lem, arrived,
}
use bindkey_esp.SpiLink.Serve.Session.View.{Done-same, Done, offered, status_frame, payload_frame}
use bindkey_esp.SpiLink.Serve.Session.Answer.{answer-Done}

module _ {W : Type 0} (api : MscApi W) (codes : EspCodes) (peer : Peer) (disk_of : W → Disk)
    (up : W → Type 0) (h bs bc : ℕ) where
  clocked_in-IsServing :
      {s : LinkSt W} (n : ℕ)
      → IsServing up h bs bc s
      → IsServing up h bs bc (clocked_in api codes peer (after_timer s) n)
  clocked_in-IsServing {s} n v =
      IsServing-move v refl refl v.device_up v.sized (length-overwrite 0 _ s.rx_dma ∙ v.rx_sized)
        (length-replicate (length s.tx_dma) 0 ∙ v.tx_sized)

  -- After a payload has been clocked in, the answer is a status.
  payload-answer-Done :
      (n : ℕ) (req : Header) (e : EspErr) (s : LinkSt W)
      → IsServing up h bs bc s
      → Done disk_of up h bs bc
          (
            disk_of s.sys.world,
            status_frame codes req (err e) ∷ take n (replicate rx_len 0) ∷ offered s.sys.effects,
          )
          (s.transfers + 1 + 1)
          (answer api codes peer req (err e) (clocked_in api codes peer (after_timer s) n))
  payload-answer-Done n req e s v =
      Done-same refl
        (ap
          (λ zeros. (
            disk_of s.sys.world,
            status_frame codes req (err e) ∷ take n (replicate zeros 0) ∷ offered s.sys.effects,
          ))
          v.tx_sized)
        (answer-Done api codes peer disk_of up h bs bc req (err e)
          (clocked_in api codes peer (after_timer s) n) (clocked_in-IsServing n v))

  chunk_of-serving :
      (req : Header) (s : LinkSt W) (r : Result Chunk)
      → IsServing up h bs bc s
      → compute_chunk bs bc req.arg0 req.arg1 req.reserved ≡ r
      → chunk_of api codes peer req s.sys ≡ r
  unfolding chunk_of
  chunk_of-serving req s r v given =
      ap (λ z. compute_chunk z s.sys.usb.block_count req.arg0 req.arg1 req.reserved) v.block_size
      ∙ ap (λ z. compute_chunk bs z req.arg0 req.arg1 req.reserved) v.block_count
      ∙ given

  module _ (pos : 0 < bs) (some_blocks : 0 < bc) where
    known : (s : LinkSt W) → IsServing up h bs bc s → not (capacity_unknown s.sys.usb) ≡ true
    known s v = ground (arith, v.block_size, v.block_count, pos, some_blocks)

    pub serve_read_refused :
        (req : Header) (s : LinkSt W) (e : EspErr)
        → IsServing up h bs bc s
        → compute_chunk bs bc req.arg0 req.arg1 req.reserved ≡ err e
        → Done disk_of up h bs bc
            (disk_of s.sys.world, status_frame codes req (err e) ∷ offered s.sys.effects)
            (s.transfers + 1)
            (serve_read api codes peer req s)
    unfolding serve_read_chunk
    serve_read_refused req s e v refused =
        Done-same
          (serve_read-chunk api codes peer req s (err e) v.present (known s v)
            (chunk_of-serving req s (err e) v refused))
          refl
          (answer-Done api codes peer disk_of up h bs bc req (err e) (after_timer s)
            (IsServing-move v refl refl v.device_up v.sized v.rx_sized v.tx_sized))

    pub serve_write_refused :
        (req : Header) (s : LinkSt W) (e : EspErr)
        → IsServing up h bs bc s
        → compute_chunk bs bc req.arg0 req.arg1 req.reserved ≡ err e
        → Done disk_of up h bs bc
            (
              disk_of s.sys.world,
              status_frame codes req (err e) ∷ payload_frame max_payload ∷ offered s.sys.effects,
            )
            (s.transfers + 1 + 1)
            (serve_write api codes peer req s)
    unfolding serve_write_chunk refuse_write receive_payload ready_high ready_low spi_slave_xfer
    serve_write_refused req s e v refused =
        Done-same
          (serve_write-chunk api codes peer req s (err e) v.present (known s v)
            (chunk_of-serving req s (err e) v refused))
          refl (payload-answer-Done (max_payload + crc_len) req e s v)

    -- A payload that does not arrive is not answered.
    pub serve_write_lost :
        (req : Header) (s : LinkSt W) (c : Chunk) (e : EspErr)
        → IsServing up h bs bc s
        → compute_chunk bs bc req.arg0 req.arg1 req.reserved ≡ ok c
        → (peer.transfer s.transfers).result ≡ err e
        → Done disk_of up h bs bc
            (disk_of s.sys.world, payload_frame c.len ∷ offered s.sys.effects)
            (s.transfers + 1)
            (serve_write api codes peer req s)
    unfolding serve_write_chunk receive_payload ready_high ready_low spi_slave_xfer
    serve_write_lost req s c e v accepted failed = record {
      after = clocked_in api codes peer (after_timer s) (c.len + crc_len);
      returns =
          serve_write-chunk api codes peer req s (ok c) v.present (known s v)
            (chunk_of-serving req s (ok c) v accepted)
          ∙ rw failed refl;
      serving = clocked_in-IsServing (c.len + crc_len) v;
      low = refl;
      seen =
          ap
            (λ zeros. (
              disk_of s.sys.world,
              take (c.len + crc_len) (replicate zeros 0) ∷ offered s.sys.effects,
            ))
            v.tx_sized;
      clocked = refl;
    }

    pub serve_write_damaged :
        (req : Header) (s : LinkSt W) (c : Chunk) (payload : List ℕ) (word : ℕ)
        → IsServing up h bs bc s
        → compute_chunk bs bc req.arg0 req.arg1 req.reserved ≡ ok c
        → length payload ≡ c.len
        → word < 2 ^ 32
        → word ≢ spi_crc32 payload
        → (peer.transfer s.transfers).result ≡ ok tt
        → (peer.transfer s.transfers).bytes ≡ payload ++ u32_le word
        → Done disk_of up h bs bc
            (
              disk_of s.sys.world,
              status_frame codes req (err invalid_crc)
                  ∷ payload_frame c.len
                  ∷ offered s.sys.effects,
            )
            (s.transfers + 1 + 1)
            (serve_write api codes peer req s)
    unfolding accept_payload
    serve_write_damaged req s c payload word v accepted count fits wrong done bytes =
        let k = compute_chunk-InBounds bs bc req.arg0 req.arg1 req.reserved accepted in
        let t = clocked_in api codes peer (after_timer s) (c.len + crc_len) in
        let rest = drop (c.len + crc_len) s.rx_dma in
        let received : t.rx_dma ≡ payload ++ (u32_le word ++ rest) =
          arrived payload s.rx_dma (peer.transfer s.transfers).bytes word (c.len + crc_len) bytes
            (omega (arith, count)) (omega (arith, v.rx_sized, k.fits)) in
        let taken : take c.len t.rx_dma ≡ payload =
          rw received (take-append payload (u32_le word ++ rest) c.len (sym count)) in
        let read : u32_at c.len t.rx_dma ≡ word =
          rw received (u32_at-append payload rest c.len word (sym count) fits) in
        let refused : (u32_at c.len t.rx_dma == spi_crc32 (take c.len t.rx_dma)) ≡ false =
          rw (taken, read) (ground (arith, wrong)) in
        Done-same
          (serve_write-chunk api codes peer req s (ok c) v.present (known s v)
              (chunk_of-serving req s (ok c) v accepted)
            ∙ serve_write_chunk_lem api codes peer req (peer.time_us s.timer_reads) c
                (after_timer s) done
            ∙ rw refused refl)
          refl (payload-answer-Done (c.len + crc_len) req invalid_crc s v)

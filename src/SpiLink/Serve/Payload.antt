-- ===== src/SpiLink/Serve/Payload.antt =====
-- A WRITE of src/spi_link/transport.rs up to the arrival of its payload, and the storing of the
-- payload.
use mathlib.Core.List.{append_assoc}
use bindkey_esp.Base.{
  ℕ, ◌+◌, ◌≤◌, ◌≡◌, refl, sym, ap, ◌∙◌, arith, true, not, some, Result, overwrite-front, List, [],
  ◌∷◌, ◌++◌, ok, EspCodes, length, take, drop, replicate, overwrite, length-append, take-length,
}
use bindkey_esp.Base.Words.{u32_le}
use bindkey_esp.MassStorage.Types.{MscApi, gpio_level, spi_transfer}
use bindkey_esp.MassStorage.BlockDevice.{capacity_unknown, bd_write_blocks}
use bindkey_esp.SpiLink.Protocol.{Header, crc_len}
use bindkey_esp.SpiLink.Chunk.{Chunk}
use bindkey_esp.SpiLink.Link.{
  pin_ready, LinkSt, Peer, arm_response_with_arg1, timer, send_response, spi_slave_xfer, ready_high,
  ready_low,
}
use bindkey_esp.SpiLink.Link.Staging.{length-u32_le}
use bindkey_esp.SpiLink.Serve.{
  count_write, chunk_of, ensure_capacity_known, receive_payload, accept_payload, store_payload,
  write_response, serve_write_chunk, write_present, serve_write,
}
use bindkey_esp.SpiLink.Serve.Steps.{after_timer, chosen, skipped}

-- What is in the receive buffer when a payload and a word behind it have arrived.
pub arrived :
    (payload rx bytes : List ℕ) (word n : ℕ)
    → bytes ≡ payload ++ u32_le word
    → n ≡ length payload + crc_len
    → n ≤ length rx
    → overwrite 0 (take n bytes) rx ≡ payload ++ (u32_le word ++ drop n rx)
arrived payload rx bytes word n e count fits =
    let sent : length bytes ≡ n =
      rw e (omega (arith, count, length-append payload (u32_le word), length-u32_le word)) in
    rw (take-length bytes n (sym sent)) (
      overwrite-front bytes rx (omega (arith, sent, fits))
      ∙ ap (λ k. bytes ++ drop k rx) sent
      ∙ ap (λ b. b ++ drop n rx) e
      ∙ append_assoc payload (u32_le word) (drop n rx))

module _ {W : Type 0} (api : MscApi W) (codes : EspCodes) (peer : Peer) where
  -- The payload has been clocked in, with READY high.
  abbrev pub clocked_in : LinkSt W → ℕ → LinkSt W
  clocked_in s n = record s {
    sys = record s.sys {
      effects =
          gpio_level pin_ready 0
          ∷ spi_transfer n (take n (replicate (length s.tx_dma) 0))
          ∷ gpio_level pin_ready 1
          ∷ s.sys.effects;
    };
    rx_dma = overwrite 0 (take n (peer.transfer s.transfers).bytes) s.rx_dma;
    tx_dma = replicate (length s.tx_dma) 0;
    transfers = s.transfers + 1;
  }

  -- The state in which the answer to a stored payload is sent.
  abbrev pub acknowledging : ℕ → LinkSt W → Header → Chunk → W → LinkSt W
  acknowledging t0 s req c w = record s {
    sys = record s.sys { world = w };
    link = arm_response_with_arg1 req codes.esp_ok c.len [] (record s.link {
      perf =
          count_write t0 (peer.time_us s.timer_reads) (peer.time_us (s.timer_reads + 1))
            s.link.perf;
    });
    timer_reads = s.timer_reads + 1 + 1;
  }

  pub store_payload-staged :
      (req : Header) (t0 : ℕ) (c : Chunk) (payload : List ℕ) (s : LinkSt W) (w : W)
      → bd_write_blocks api c.lba c.nblocks payload s.sys ≡ some (ok tt, record s.sys { world = w })
      → store_payload api codes peer req t0 c payload s
        ≡ send_response peer (acknowledging t0 s req c w)
  unfolding store_payload write_response timer
  store_payload-staged req t0 c payload s w stored = rw stored refl

  pub serve_write_chunk_lem :
      (req : Header) (t0 : ℕ) (c : Chunk) (s : LinkSt W)
      → (peer.transfer s.transfers).result ≡ ok tt
      → serve_write_chunk api codes peer req t0 (ok c) s
        ≡ accept_payload api codes peer req t0 c (clocked_in s (c.len + crc_len))
  unfolding serve_write_chunk receive_payload ready_high ready_low spi_slave_xfer
  serve_write_chunk_lem req t0 c s done = rw done refl

  -- Behind the checks, with the chunk or the error that the request gives.
  pub serve_write-chunk :
      (req : Header) (s : LinkSt W) (r : Result Chunk)
      → s.sys.global_set ≡ true
      → not (capacity_unknown s.sys.usb) ≡ true
      → chunk_of api codes peer req s.sys ≡ r
      → serve_write api codes peer req s
        ≡ serve_write_chunk api codes peer req (peer.time_us s.timer_reads) r (after_timer s)
  unfolding serve_write write_present ensure_capacity_known timer
  serve_write-chunk req s r present known chunk =
      chosen s.sys.global_set _ (write_present api codes peer req (peer.time_us s.timer_reads))
        (after_timer s) present
      ∙ skipped (not (capacity_unknown s.sys.usb)) _ _ (after_timer s) known
      ∙ ap
          (λ r. serve_write_chunk api codes peer req (peer.time_us s.timer_reads) r (after_timer s))
          chunk

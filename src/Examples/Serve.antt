-- ===== src/Examples/Serve.antt =====
-- A READ and a WRITE from the request to the wire and the drive, at concrete inputs.
use mathlib.Core.Option
use bindkey_esp.Base.{
  ℕ, ◌*◌, ◌≡◌, refl, take, arith, some, [], ◌∷◌, ◌++◌, replicate, ok, length-replicate, true,
}
use bindkey_esp.Base.Words.{u32_le}
use bindkey_esp.MassStorage.Types.{gpio_level, spi_transfer}
use bindkey_esp.SpiLink.Protocol.{Header, header_bytes}
use bindkey_esp.SpiLink.Crc.{spi_crc32}
use bindkey_esp.SpiLink.Chunk.{chunk_at, compute_chunk}
use bindkey_esp.SpiLink.Link.{LinkSt, Peer, new_link, hdr_len, rx_len, pin_ready, response_header}
use bindkey_esp.SpiLink.Serve.{serve_read, serve_write}
use bindkey_esp.SpiLink.Serve.Read.{serve_read_lem}
use bindkey_esp.SpiLink.Serve.Write.{outside, serve_write_lem}
use bindkey_esp.Examples.Worlds.{busy_api, idf_codes, silent_peer}
use bindkey_esp.Examples.Spi.{request}
use bindkey_esp.Examples.Link.{new_link-IsSized}
use bindkey_esp.Examples.Driver.{small_drive, two_blocks}

-- The sectors 1 and 2 of a drive of four sectors of two bytes.
abbrev read_request : Header
read_request = record request { arg0 = 1; arg1 = 2 }

abbrev with_drive : LinkSt ℕ
with_drive = record {
  sys = record {
    global_set = true;
    tps_initialized = true;
    usb = small_drive;
    effects = [];
    world = 0;
  };
  link = new_link;
  rx_dma = replicate rx_len 0;
  tx_dma = replicate rx_len 0;
  transfers = 0;
  timer_reads = 0;
}

two_sectors_accepted : compute_chunk 2 4 1 2 0 ≡ ok (record { lba = 1; nblocks = 2; len = 4 })
unfolding compute_chunk chunk_at
two_sectors_accepted = refl

serve_read_example :
    Option.map
      (λ r. r.1.sys.effects)
      (serve_read busy_api idf_codes silent_peer read_request with_drive)
    ≡ some (
        gpio_level pin_ready 0
        ∷ spi_transfer 24 (
            (header_bytes (response_header read_request 0 4) ++ take 4 new_link.block_buf)
            ++ u32_le (spi_crc32 (take 4 new_link.block_buf)))
        ∷ gpio_level pin_ready 1
        ∷ [])
serve_read_example =
    serve_read_lem busy_api idf_codes silent_peer read_request with_drive 5 refl refl (omega arith)
      new_link-IsSized (length-replicate {A = ℕ} rx_len 0) two_sectors_accepted refl

-- A master that sends four bytes with their checksum.
abbrev writing_peer : Peer
writing_peer = record {
  transfer = λ k. record { result = ok tt; bytes = two_blocks ++ u32_le (spi_crc32 two_blocks) };
  time_us = λ k. k * 10;
}

serve_write_example :
    outside (serve_write busy_api idf_codes writing_peer read_request with_drive)
    ≡ some (
      1,
      gpio_level pin_ready 0
          ∷ spi_transfer hdr_len (header_bytes (response_header read_request 0 4))
          ∷ gpio_level pin_ready 1
          ∷ gpio_level pin_ready 0
          ∷ spi_transfer 8 (take 8 (replicate rx_len 0))
          ∷ gpio_level pin_ready 1
          ∷ [],
    )
serve_write_example =
    serve_write_lem busy_api idf_codes writing_peer read_request with_drive 5 two_blocks refl refl
      (omega arith) new_link-IsSized (length-replicate {A = ℕ} rx_len 0)
      (length-replicate {A = ℕ} rx_len 0) two_sectors_accepted refl refl refl refl

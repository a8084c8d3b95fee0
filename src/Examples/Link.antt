-- ===== src/Examples/Link.antt =====
-- Transfers and the service loop at concrete inputs.
use mathlib.Core.Option
use bindkey_esp.Base.{
  none, overwrite, ℕ, ◌≡◌, refl, arith, some, List, [], ◌∷◌, ◌++◌, replicate, ok, err,
  length-replicate, true, invalid_crc,
}
use bindkey_esp.Base.Words.{u32_le}
use bindkey_esp.MassStorage.Types.{new_mass_storage}
use bindkey_esp.SpiLink.Protocol.{is_valid, cmd_enum, read_header, max_payload}
use bindkey_esp.SpiLink.Crc.{spi_crc32}
use bindkey_esp.SpiLink.Chunk.{Chunk}
use bindkey_esp.SpiLink.Link.{Link, LinkSt, Peer, new_link, rx_len}
use bindkey_esp.SpiLink.Link.Staging.{IsSized}
use bindkey_esp.SpiLink.Serve.Ready.{Lowered}
use bindkey_esp.SpiLink.Serve.Ready.Rounds.{serve_rounds-Lowered}
use bindkey_esp.SpiLink.Serve.Kept.{Kept}
use bindkey_esp.SpiLink.Serve.Kept.Closed.{Untouched, serve_rounds-Untouched}
use bindkey_esp.SpiLink.Serve.Filter.{with_header}
use bindkey_esp.SpiLink.Serve.{serve_rounds, accept_payload, answer}
use bindkey_esp.SpiLink.Serve.Integrity.{accept_payload_damaged}
use bindkey_esp.Examples.Worlds.{busy_api, idf_codes, silent_peer}
use bindkey_esp.Examples.Spi.{request}

pub new_link-IsSized : IsSized new_link
unfolding new_link
new_link-IsSized = record {
  resp = length-replicate {A = ℕ} rx_len 0;
  block = length-replicate {A = ℕ} max_payload 0;
  staged_fits = omega arith;
}

abbrev armed : Link
unfolding new_link
armed = record new_link { resp_len = 17 }

armed-IsSized : IsSized armed
unfolding new_link
armed-IsSized = record {
  resp = length-replicate {A = ℕ} rx_len 0;
  block = length-replicate {A = ℕ} max_payload 0;
  staged_fits = omega arith;
}

abbrev idle : LinkSt ℕ
idle = record {
  sys = record {
    global_set = true;
    tps_initialized = true;
    usb = new_mass_storage;
    effects = [];
    world = 0;
  };
  link = armed;
  rx_dma = replicate rx_len 0;
  tx_dma = replicate rx_len 0;
  transfers = 0;
  timer_reads = 0;
}

-- A chunk of one sector of four bytes.
abbrev one_sector : Chunk
one_sector = record { lba = 0; nblocks = 1; len = 4 }

abbrev received : List ℕ → List ℕ → LinkSt ℕ
received arrived sent = record idle { rx_dma = arrived ++ (u32_le (spi_crc32 sent) ++ (0 ∷ [])) }

abbrev damaged : LinkSt ℕ
damaged = received (1 ∷ 2 ∷ 3 ∷ 4 ∷ []) (1 ∷ 9 ∷ 3 ∷ 4 ∷ [])

accept_payload_damaged_example :
    (accept_payload busy_api idf_codes silent_peer request 5 one_sector damaged
      ≡ answer busy_api idf_codes silent_peer request (err invalid_crc) damaged)
    × (Option.map
          (λ r. r.1.sys.world)
          (accept_payload busy_api idf_codes silent_peer request 5 one_sector damaged)
        ≡ some 0)
    × (Option.map
          (λ r. r.1.sys.usb)
          (accept_payload busy_api idf_codes silent_peer request 5 one_sector damaged)
        ≡ some new_mass_storage)
accept_payload_damaged_example =
    accept_payload_damaged busy_api idf_codes silent_peer request 5 one_sector (1 ∷ []) 2 9
      (3 ∷ 4 ∷ []) (0 ∷ []) damaged (omega arith, tt) (omega arith) (omega arith)
      (omega arith, (omega arith, tt)) (ground arith) refl refl

abbrev short_buffers : LinkSt ℕ
short_buffers = record idle { rx_dma = replicate 20 0 }

-- A master that asks for command 9.
abbrev confused_peer : Peer
confused_peer = record {
  transfer = λ k. record { result = ok tt; bytes = 0x42 ∷ 0x4B ∷ 1 ∷ 9 ∷ replicate 12 0 };
  time_us = λ k. 0;
}

confused_is_valid : is_valid (read_header (with_header confused_peer short_buffers).rx_dma) ≡ true
unfolding is_valid read_header overwrite
confused_is_valid = refl

confused_is_unknown : cmd_enum (read_header (with_header confused_peer short_buffers).rx_dma) ≡ none
unfolding cmd_enum read_header overwrite
confused_is_unknown = refl

serve_rounds-Lowered_example :
    Lowered (serve_rounds busy_api idf_codes confused_peer 3 short_buffers)
serve_rounds-Lowered_example =
    serve_rounds-Lowered busy_api idf_codes confused_peer 3 short_buffers refl

nothing_open : short_buffers.sys.usb.handle ≡ none
unfolding new_mass_storage
nothing_open = refl

serve_rounds-Untouched_example :
    Kept
      (Untouched short_buffers.sys)
      (serve_rounds busy_api idf_codes confused_peer 3 short_buffers)
serve_rounds-Untouched_example =
    serve_rounds-Untouched busy_api idf_codes confused_peer 3 short_buffers nothing_open

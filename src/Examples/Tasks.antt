-- ===== src/Examples/Tasks.antt =====
-- The tasks taking turns, at concrete inputs.
use mathlib.Core.Option
use bindkey_esp.Base.{
  ℕ, zero, suc, ◌*◌, ◌≡◌, refl, arith, inl, none, some, Option, ◌++◌, replicate, ok,
  length-replicate,
}
use bindkey_esp.Base.Words.{u32_le}
use bindkey_esp.MassStorage.Types.{disconnected, UsbMassStorage}
use bindkey_esp.MassStorage.Driver.{handle_raw_event}
use bindkey_esp.SpiLink.Protocol.{Header, header_bytes}
use bindkey_esp.SpiLink.Crc.{spi_crc32}
use bindkey_esp.SpiLink.Chunk.{Chunk}
use bindkey_esp.SpiLink.Link.{LinkSt, Peer, new_link, rx_len}
use bindkey_esp.Tasks.{finish_write}
use bindkey_esp.Tasks.Arrival.{drive_after, finish_write_stale, finish_write_current}
use bindkey_esp.Tasks.Capacity.{refresh_during, refresh_during_disconnect}
use bindkey_esp.Examples.Worlds.{busy_board, idf_codes}
use bindkey_esp.Examples.Spi.{request}
use bindkey_esp.Examples.Driver.{small_drive, two_blocks, running}

-- A master that announces two sectors from sector 1 on, and then sends them.
abbrev write_request : Header
write_request = record request { cmd = 4; arg0 = 1; arg1 = 2 }

abbrev announcing_peer : Peer
announcing_peer = record {
  transfer = λ k. elim k [
    | zero ↦ record { result = ok tt; bytes = header_bytes write_request }
    | suc n ↦ record { result = ok tt; bytes = two_blocks ++ u32_le (spi_crc32 two_blocks) }
  ];
  time_us = λ k. k * 10;
}

abbrev idle_task : LinkSt ℕ
idle_task = record {
  sys = running small_drive 0;
  link = new_link;
  rx_dma = replicate 20 0;
  tx_dma = replicate 20 0;
  transfers = 0;
  timer_reads = 0;
}

abbrev pair : Chunk
pair = record { lba = 1; nblocks = 2; len = 4 }

-- The payload arrives at a drive of which the device is gone, and at one that is there.
abbrev arriving : UsbMassStorage → LinkSt ℕ
arriving u = record idle_task { sys = running u 0; rx_dma = replicate rx_len 0; transfers = 1 }

abbrev no_drive : UsbMassStorage
no_drive = record small_drive { handle = none; block_size = 0; block_count = 0 }

finish_write_stale_example :
    drive_after
      (finish_write busy_board idf_codes announcing_peer write_request 0 pair (arriving no_drive))
    ≡ some (no_drive, 0)
finish_write_stale_example =
    finish_write_stale busy_board idf_codes announcing_peer write_request 0 pair (arriving no_drive)
      (length-replicate {A = ℕ} rx_len 0) (omega arith) (inl refl)

finish_write_current_example :
    drive_after (
      finish_write busy_board idf_codes announcing_peer write_request 0 pair (arriving small_drive))
    ≡ some (small_drive, 1)
finish_write_current_example =
    finish_write_current busy_board idf_codes announcing_peer write_request 0 pair
      (arriving small_drive) 5 two_blocks (length-replicate {A = ℕ} rx_len 0) (omega arith)
      (record {
        open_device = refl;
        some_blocks = omega arith;
        size_known = omega arith;
        on_drive = omega arith;
        count_fits = omega arith;
        exact = refl;
        addressable = omega arith;
      })
      refl refl refl refl

refresh_during_disconnect_example :
    Option.map {B = Option ℕ × ℕ × ℕ}
      (λ r. (r.1.usb.handle, r.1.usb.block_size, r.1.usb.block_count))
      (refresh_during busy_board (handle_raw_event busy_board disconnected) (running small_drive 0))
    ≡ some (none, 512, 4)
refresh_during_disconnect_example =
    refresh_during_disconnect busy_board (running small_drive 0) 5 512 4 refl refl refl refl

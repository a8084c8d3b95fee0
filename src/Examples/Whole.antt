-- ===== src/Examples/Whole.antt =====
-- The driver over the component at concrete inputs.
use bindkey_esp.Base.{
  Option, Result, Bool, false, suc, err, ℕ, ◌≡◌, refl, arith, true, none, some, [], ◌∷◌, ◌++◌, ok,
}
use bindkey_esp.Base.Action.{Act}
use bindkey_esp.MassStorage.Types.{Sys, UsbMassStorage, call}
use bindkey_esp.MassStorage.BlockDevice.{bd_read_blocks, bd_write_blocks}
use bindkey_esp.MassStorage.Component.{Component, component_api, on_driver}
use bindkey_esp.MassStorage.Component.Sectors.{
  read_command, write_command, read_exchange, write_exchange, chunk_exchange,
}
use bindkey_esp.Msc.Command.{command_bytes, dir_in, dir_out}
use bindkey_esp.Msc.Command.Wire.{Decodes10}
use bindkey_esp.Msc.Device.{zero_device}
use bindkey_esp.Msc.Vfs.{Fat, fr_ok}
use bindkey_esp.SpiLink.Chunk.{Chunk, chunk_at, compute_chunk}
use bindkey_esp.Boot.{Peripherals, boot}
use bindkey_esp.Boot.Established.{Started, boot-Started}
use bindkey_esp.SpiLink.Link.{LinkSt, new_link}
use bindkey_esp.Examples.Worlds.{busy_board, three_bytes, small_xfer}
use bindkey_esp.Examples.Driver.{small_drive, announced, two_blocks}

-- A file system that does nothing.
abbrev pub idle_fat : {W : Type 0} → Fat W
idle_fat = record {
  ff_memalloc = λ size w. (true, w);
  calloc_vfs = λ w. (true, w);
  strdup = λ w. (true, w);
  free = λ w. w;
  f_mkfs = λ drive cluster_size size w. (fr_ok, w);
  f_mount = λ fs drive opt w. (fr_ok, w);
  get_drive = λ w. some (ok 0, w);
  diskio_register = λ d w. w;
  diskio_unregister = λ d w. w;
  fat_register = λ path drive n w. some (ok 0, w);
  fat_unregister_path = λ path w. w;
}

abbrev pub library_ready : {W : Type 0} → Act W (Unit {0})
library_ready w = some (ok tt, w)

abbrev pub connected_component : Component ℕ
connected_component = record {
  volumes = record {
    disks = none ∷ [];
    msc = record {
      driver = none;
      heap = λ d. some (record zero_device { xfer = some small_xfer });
      cbw_tag = 0;
      world = 0;
    };
  };
  vfs = λ a. none;
  next_vfs = 1;
}

abbrev whole : UsbMassStorage → Sys (Component ℕ)
whole u = record {
  global_set = true;
  tps_initialized = true;
  usb = u;
  effects = [];
  world = connected_component;
}

abbrev middle : Chunk
middle = record { lba = 1; nblocks = 2; len = 4 }

middle_accepted : compute_chunk 2 4 1 2 0 ≡ ok middle
unfolding compute_chunk chunk_at
middle_accepted = refl

chunk_exchange_example :
    (bd_read_blocks
        (component_api three_bytes idle_fat library_ready 2 1)
        1
        2
        two_blocks
        (whole small_drive)
      ≡ call (on_driver (read_exchange three_bytes 2 5 middle two_blocks)) (whole small_drive))
    × Decodes10 (command_bytes (read_command middle 1) ++ []) 1 4 dir_in 0x28 1 2
    × (bd_write_blocks
          (component_api three_bytes idle_fat library_ready 2 1)
          1
          2
          two_blocks
          (whole small_drive)
        ≡ call (on_driver (write_exchange three_bytes 2 5 middle two_blocks)) (whole small_drive))
    × Decodes10 (command_bytes (write_command middle 1) ++ []) 1 4 dir_out 0x2A 1 2
chunk_exchange_example =
    chunk_exchange three_bytes idle_fat library_ready 2 1 (whole small_drive) 5 1 2 0 two_blocks []
      middle_accepted refl (omega arith) refl

abbrev quiet_peripherals : Peripherals ℕ
quiet_peripherals = record {
  spi_slave_initialize = λ config w. some (ok tt, suc w);
  create_pinned_task = λ stack priority core w. (1, w);
}

abbrev before_boot : LinkSt ℕ
before_boot = record {
  sys = record {
    global_set = false;
    tps_initialized = false;
    usb = announced 2;
    effects = [];
    world = 0;
  };
  link = new_link;
  rx_dma = [];
  tx_dma = [];
  transfers = 0;
  timer_reads = 0;
}

abbrev is_ok : {S : Type 0} → Option (Result (Unit {0}) × S) → Bool
is_ok none = false
is_ok (some (ok _, s)) = true
is_ok (some (err e, s)) = false

boot_succeeds : is_ok (boot busy_board quiet_peripherals before_boot) ≡ true
unfolding boot
boot_succeeds = refl

boot-Started_example :
    Started busy_board quiet_peripherals 3 (boot busy_board quiet_peripherals before_boot)
boot-Started_example = boot-Started busy_board quiet_peripherals 3 before_boot (λ w. tt)

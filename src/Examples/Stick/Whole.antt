-- ===== src/Examples/Stick/Whole.antt =====
-- The component over the library of Stick is a drive for src/usb_mass_storage/block_device.rs.
use bindkey_esp.Base.{ℕ, refl, ap, ◌∙◌, none, some, replicate}
use bindkey_esp.MassStorage.BlockDevice.Store.{Disk, IsDrive}
use bindkey_esp.MassStorage.Component.{Component, component_api}
use bindkey_esp.MassStorage.Component.Drive.{AnswersCommands, component_api-IsDrive, with_msc}
use bindkey_esp.Msc.Types.{St}
use bindkey_esp.Msc.Scsi.{msc_host_reset_recovery}
use bindkey_esp.Examples.Store.{held, held-stored}
use bindkey_esp.Examples.Stick.{Stick, awaiting, stick_host}
use bindkey_esp.Base.{true, [], ◌∷◌, length-replicate}
use bindkey_esp.MassStorage.Types.{MscApi}
use bindkey_esp.Msc.Types.{Xfer, completed}
use bindkey_esp.Msc.Device.{zero_device}
use bindkey_esp.SpiLink.Link.{LinkSt, new_link, rx_len}
use bindkey_esp.SpiLink.Serve.Steps.{IsServing}
use bindkey_esp.Examples.Worlds.{small_xfer}
use bindkey_esp.Examples.Link.{new_link-IsSized}
use bindkey_esp.Examples.Driver.{small_drive}
use bindkey_esp.Examples.Whole.{idle_fat, library_ready}
use bindkey_esp.SpiLink.Serve.Session.Probe.{IsAwake}
use bindkey_esp.Examples.Stick.Probe.{
  after_ready, after_told, after_ready_world, after_told_world, scsi_cmd_unit_ready-up,
  scsi_cmd_read_capacity-up, ready-IsUp, told-IsUp,
}
use bindkey_esp.Examples.Stick.Read.{read_exchange, read-IsUp, read_status_world}
use bindkey_esp.Examples.Stick.Write.{write_exchange, write-IsUp, write_status_world}
use bindkey_esp.Examples.Stick.Drive.{after_data_in, after_data_out, reported, IsUp}

-- What the drive holds behind the component's memory.
abbrev pub held_by : St Stick → Disk
held_by m = held m.world.disk

stick_host-AnswersCommands : (depth : ℕ) → AnswersCommands stick_host depth 7 2 8192 held_by IsUp
stick_host-AnswersCommands depth = record {
  after_read = λ lba n m. reported (after_data_in lba n m);
  after_write = λ lba n payload m. reported (after_data_out lba n payload m);
  reads = λ buffer lba n m up r count.
      read_exchange m lba n up r (msc_host_reset_recovery stick_host depth) buffer count;
  writes = λ payload lba n m up r count.
      write_exchange m lba n payload up r count (msc_host_reset_recovery stick_host depth);
  read_keeps = λ lba n m up r. ap (λ w. held w.disk) (read_status_world m lba n up r);
  write_stores = λ payload lba n m up r count.
      ap (λ w. held w.disk) (write_status_world m lba n payload up r count)
      ∙ held-stored payload lba n m.world.disk count;
  up_after_read = λ lba n m up r. read-IsUp m lba n up r;
  up_after_write = λ payload lba n m up r count. write-IsUp m lba n payload up r count;
}

-- The firmware's component in front of this library.
abbrev pub stick_api : MscApi (Component Stick)
stick_api = component_api stick_host idle_fat library_ready 2 1

abbrev pub stick_disk : Component Stick → Disk
stick_disk s = held_by s.volumes.msc

abbrev pub StickUp : Component Stick → Type 0
StickUp s = IsUp s.volumes.msc

pub stick_api-IsDrive : IsDrive stick_api 7 2 8192 stick_disk StickUp
stick_api-IsDrive =
    component_api-IsDrive stick_host 2 7 2 8192 held_by IsUp (stick_host-AnswersCommands 2) idle_fat
      library_ready 1

pub stick_api-IsAwake : IsAwake stick_api 7 2 8192 stick_disk StickUp
unfolding component_api
stick_api-IsAwake = record {
  after_probe = λ s. with_msc s (after_ready s.volumes.msc);
  after_capacity = λ s. with_msc s (after_told s.volumes.msc);
  probes = λ s up. rw (scsi_cmd_unit_ready-up 2 s.volumes.msc up) refl;
  reports = λ s up. rw (scsi_cmd_read_capacity-up 2 s.volumes.msc up) refl;
  probe_keeps = λ s up. ap (λ w. held w.disk) (after_ready_world 2 s.volumes.msc up);
  report_keeps = λ s up. ap (λ w. held w.disk) (after_told_world 2 s.volumes.msc up);
  up_after_probe = λ s up. ready-IsUp 2 s.volumes.msc up;
  up_after_capacity = λ s up. told-IsUp 2 s.volumes.msc up;
}

-- An open drive of 8192 empty sectors of two bytes, behind the component.
abbrev large_xfer : Xfer
large_xfer = record small_xfer { data_buffer = replicate 16384 0; data_buffer_size = 16384 }

abbrev pub stick_component : Component Stick
stick_component = record {
  volumes = record {
    disks = none ∷ [];
    msc = record {
      driver = none;
      heap = λ d. some (record zero_device { xfer = some large_xfer });
      cbw_tag = 0;
      world = record {
        disk = λ a. [];
        phase = awaiting;
        tag = 0;
        last = record { status = completed; actual_num_bytes = 0; received = [] };
      };
    };
  };
  vfs = λ a. none;
  next_vfs = 1;
}

pub stick_component-IsUp : StickUp stick_component
stick_component-IsUp = record {
  has_room = record {
    there = refl;
    allocated = refl;
    room = refl;
    sized = length-replicate {A = ℕ} 16384 0;
  };
  waits = refl;
}

abbrev pub stick_drive : LinkSt (Component Stick)
stick_drive = record {
  sys = record {
    global_set = true;
    tps_initialized = true;
    usb = record small_drive { handle = some 7; block_count = 8192 };
    effects = [];
    world = stick_component;
  };
  link = new_link;
  rx_dma = replicate rx_len 0;
  tx_dma = replicate rx_len 0;
  transfers = 0;
  timer_reads = 0;
}

pub stick_drive-IsServing : IsServing StickUp 7 2 8192 stick_drive
stick_drive-IsServing = record {
  device_up = stick_component-IsUp;
  present = refl;
  open_device = refl;
  block_size = refl;
  block_count = refl;
  sized = new_link-IsSized;
  rx_sized = length-replicate {A = ℕ} rx_len 0;
  tx_sized = length-replicate {A = ℕ} rx_len 0;
}

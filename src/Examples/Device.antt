-- ===== src/Examples/Device.antt =====
-- Devices, mounts and commands of the component at concrete libraries.
use mathlib.Core.Option
use bindkey_esp.Base.{
  fail, overwrite, ℕ, ◌+◌, ◌≡◌, refl, arith, true, false, none, some, List, [], ◌∷◌, ok, err,
  replicate,
}
use bindkey_esp.Base.Action.{Act}
use bindkey_esp.Msc.Types.{interface, endpoint, MscDriver, dev_gone, UsbHost, St}
use bindkey_esp.Msc.Transfer.{msc_bulk_transfer}
use bindkey_esp.Msc.Command.{read10_block, dir_in, command_bytes, check_csw, read_csw}
use bindkey_esp.Msc.Bot.{bot_execute_command}
use bindkey_esp.Msc.Scsi.Errors.{scsi_cmd_read10-reported}
use bindkey_esp.Msc.Scsi.{execute, scsi_cmd_sense, scsi_cmd_read10, msc_host_reset_recovery}
use bindkey_esp.Msc.Device.{
  zero_device, stailq_remove, msc_host_install_device, msc_host_uninstall_device,
}
use bindkey_esp.Msc.Descriptors.{extract_config_from_descriptor}
use bindkey_esp.Msc.Device.Uninstall.{dequeued, msc_host_uninstall_device_lem}
use bindkey_esp.Msc.Device.Install.{Atomic, msc_host_install_device-Atomic}
use bindkey_esp.MassStorage.Types.{disconnected}
use bindkey_esp.Msc.Client.{client_event_cb}
use bindkey_esp.Msc.Client.Gone.{client_event_cb_gone}
use bindkey_esp.Msc.Vfs.{
  FResult, MountConfig, Fat, fr_no_filesystem, fr_other, msc_host_vfs_register,
}
use bindkey_esp.Msc.Vfs.Format.{msc_host_vfs_register-no_format}
use bindkey_esp.Examples.Worlds.{three_bytes, small_xfer}
use bindkey_esp.Examples.Ready.{state_of}
use bindkey_esp.Examples.Whole.{idle_fat, connected_component}

abbrev installed : MscDriver
installed = record {
  client_handle = some 1;
  all_events_handled = true;
  end_client_event_handling = false;
  event_handling_started = false;
  devices_tailq = 5 ∷ [];
}

abbrev host : St ℕ
host = record {
  driver = some installed;
  heap = λ d. some (record zero_device { xfer = some small_xfer });
  cbw_tag = 0;
  world = 0;
}

-- A device with one interface for mass storage, whose commands all fail.
abbrev failing : UsbHost ℕ
failing = record three_bytes {
  get_active_config_descriptor =
      λ d w. some (ok (interface 1 8 6 80 ∷ endpoint 129 64 ∷ endpoint 2 64 ∷ []), w);
}

install_fails :
    Option.map
      (λ r. r.0)
      (msc_host_install_device failing (msc_host_reset_recovery failing 2) 3 host)
    ≡ some (err fail)
unfolding msc_host_install_device msc_host_reset_recovery execute bot_execute_command
    msc_bulk_transfer command_bytes check_csw read_csw overwrite extract_config_from_descriptor
install_fails = refl

msc_host_install_device-Atomic_example :
    Atomic installed 7 (msc_host_install_device failing (msc_host_reset_recovery failing 2) 3 host)
msc_host_install_device-Atomic_example =
    msc_host_install_device-Atomic failing 2 3 host installed 1 7 1 refl refl refl
      (ground arith, tt)

-- A library that does not release an interface, and a driver with a device in use.
abbrev holding : UsbHost ℕ
holding = record three_bytes { interface_release = λ c d i w. some (err fail, w + 1) }

abbrev in_use : St ℕ
in_use = record host { heap = λ d. some (record zero_device { transfer_done = true }) }

one_queued : stailq_remove 5 (5 ∷ []) ≡ some []
unfolding stailq_remove
one_queued = refl

msc_host_uninstall_device_example :
    (msc_host_uninstall_device holding (msc_host_reset_recovery holding 2) (some 5) in_use
      ≡ some (
        err fail,
        dequeued holding (msc_host_reset_recovery holding 2) installed [] 5 (err fail) 1 in_use,
      ))
    × (msc_host_uninstall_device holding
          (msc_host_reset_recovery holding 2)
          (some 5)
          (dequeued holding (msc_host_reset_recovery holding 2) installed [] 5 (err fail) 1 in_use)
        ≡ none)
msc_host_uninstall_device_example =
    msc_host_uninstall_device_lem holding (msc_host_reset_recovery holding 2) in_use installed 5
      (record zero_device { transfer_done = true }) [] (err fail) 1 refl refl refl one_queued tt
      refl

client_event_cb_gone_example :
    client_event_cb three_bytes (dev_gone 0) host ≡ some (ok (disconnected ∷ []), host)
client_event_cb_gone_example =
    client_event_cb_gone three_bytes 0 ((5, record zero_device { xfer = some small_xfer }) ∷ [])
      host installed refl refl (refl, tt)

abbrev recover : ℕ → Act (St ℕ) (Unit {0})
recover d s = some (ok tt, record s { world = s.world + 100 })

abbrev plain_mount : MountConfig
plain_mount = record { format_if_mount_failed = false; max_files = 8; allocation_unit_size = 8192 }

-- A disk without a file system.
abbrev blank_disk : Fat ℕ
blank_disk = record idle_fat { f_mount = λ fs drive opt w. (fr_no_filesystem, w) }

abbrev failing_format : List ℕ → ℕ → ℕ → ℕ → FResult × ℕ
failing_format drive cluster_size size w = (fr_other, w + 1)

msc_host_vfs_register-no_format_example :
    msc_host_vfs_register three_bytes recover 1 blank_disk
      (some 7)
      (some [])
      (some plain_mount)
      connected_component.volumes
    ≡ msc_host_vfs_register three_bytes recover 1
        (record blank_disk { f_mkfs = failing_format })
        (some 7)
        (some [])
        (some plain_mount)
        connected_component.volumes
msc_host_vfs_register-no_format_example =
    msc_host_vfs_register-no_format three_bytes recover 1 blank_disk failing_format (some 7)
      (some []) plain_mount connected_component.volumes refl

-- A device whose status is never valid, and whose sense data cannot be read either.
abbrev exchanged : St ℕ
exchanged =
    state_of host
      (execute three_bytes recover 7 dir_in 4 (read10_block 2 1) (some (replicate 4 0)) host)

abbrev sensed : St ℕ
sensed = state_of host (scsi_cmd_sense three_bytes recover 7 exchanged)

exchange_fails :
    execute three_bytes recover 7 dir_in 4 (read10_block 2 1) (some (replicate 4 0)) host
    ≡ some (ok (err fail, 1 ∷ 2 ∷ 3 ∷ 0 ∷ []), exchanged)
unfolding execute scsi_cmd_sense bot_execute_command msc_bulk_transfer command_bytes read10_block
    check_csw read_csw overwrite
exchange_fails = refl

sense_fails : scsi_cmd_sense three_bytes recover 7 exchanged ≡ some (err fail, sensed)
unfolding execute scsi_cmd_sense bot_execute_command msc_bulk_transfer command_bytes read10_block
    check_csw read_csw overwrite
sense_fails = refl

scsi_cmd_read10-reported_example :
    scsi_cmd_read10 three_bytes recover 7 (replicate 4 0) 2 1 4 host
    ≡ some (ok (err fail, 1 ∷ 2 ∷ 3 ∷ 0 ∷ []), sensed)
scsi_cmd_read10-reported_example =
    scsi_cmd_read10-reported three_bytes recover 7 (replicate 4 0) (1 ∷ 2 ∷ 3 ∷ 0 ∷ []) 2 1 4
      (err fail) (err fail) host exchanged sensed exchange_fails sense_fails

-- ===== src/MassStorage/Component.antt =====
-- The calls of src/usb_mass_storage/driver.rs and block_device.rs into the C component
-- src/usb_mass_storage/usb_host_msc: the interface `MscApi`, filled with the component's functions.
-- Calls of the component run as one step, and only the USB Host Library and FatFs stay parameters.
pub mod Sectors
pub mod Events
pub mod Drive
use bindkey_esp.Base.{
  ℕ, ◌+◌, ◌≡◌, sym, ap, ◌∙◌, arith, true, false, Option, none, some, List, [], ◌∷◌, length, Result,
  ok, err, Status, ◌==◌, if◌then◌else◌,
}
use bindkey_esp.Base.Action.{Act, pure, modify, gets, ◌>>=◌, ◌>>◌}
use bindkey_esp.Base.Returns.{Returns}
use bindkey_esp.MassStorage.Types.{MscEvent, MscApi}
use bindkey_esp.Msc.Types.{UsbHost, St, lib}
use bindkey_esp.Msc.Bot.{Reply}
use bindkey_esp.Msc.Bot.Length.{ReplyHas}
use bindkey_esp.Msc.Scsi.{
  scsi_cmd_unit_ready, scsi_cmd_read_capacity, scsi_cmd_read10, scsi_cmd_write10,
  msc_host_reset_recovery,
}
use bindkey_esp.Msc.Scsi.Buffers.{scsi_cmd_read10-length}
use bindkey_esp.Msc.Device.{msc_host_install_device, msc_host_uninstall_device}
use bindkey_esp.Msc.Client.{DriverConfig, msc_host_install, msc_host_handle_events}
use bindkey_esp.Msc.DiskIo.{Volumes}
use bindkey_esp.Msc.Vfs.{MountConfig, MscVfs, Fat, msc_host_vfs_register, msc_host_vfs_unregister}

-- `msc_cfg` of `init_host`, and `mount_cfg` and `MNT_PATH` of `mount_vfs`.
unfoldable pub msc_cfg : DriverConfig
msc_cfg = record {
  create_background_task = true;
  task_priority = 5;
  stack_size = 4096;
  callback = true;
}

unfoldable pub mount_cfg : MountConfig
mount_cfg = record { format_if_mount_failed = false; max_files = 8; allocation_unit_size = 8192 }

-- `"/usb"`
abbrev pub mnt_path : List ℕ
mnt_path = 47 ∷ 117 ∷ 115 ∷ 98 ∷ []

-- The component's memory, with the mounted file systems by address: `next_vfs` is the address that
-- the next one gets.
pub record Component (W : Type 0) : Type 0 where
  pub volumes : Volumes W
  pub vfs : ℕ → Option MscVfs
  pub next_vfs : ℕ

module _ {W : Type 0} where
  abbrev pub rejoin_volumes :
      {A : Type 0} → Component W → Option (Result A × Volumes W) → Option (Result A × Component W)
  rejoin_volumes s none = none
  rejoin_volumes s (some (r, v)) = some (r, record s { volumes = v })

  abbrev pub on_volumes : {A : Type 0} → Act (Volumes W) A → Act (Component W) A
  on_volumes m s = rejoin_volumes s (m s.volumes)

  abbrev pub rejoin_driver :
      {A : Type 0} → Component W → Option (Result A × St W) → Option (Result A × Component W)
  rejoin_driver s none = none
  rejoin_driver s (some (r, msc)) = some (r, record s { volumes = record s.volumes { msc = msc } })

  -- An operation of the component that has nothing to do with the file system.
  abbrev pub on_driver : {A : Type 0} → Act (St W) A → Act (Component W) A
  on_driver m s = rejoin_driver s (m s.volumes.msc)

-- `usb_host_install` of the library, the recoveries that may be nested, and `FF_VOLUMES`.
module _ {W : Type 0} (U : UsbHost W) (F : Fat W) (usb_host_install : Act W (Unit {0}))
    (depth ff_volumes : ℕ) where
  abbrev recovery : ℕ → Act (St W) (Unit {0})
  recovery = msc_host_reset_recovery U depth

  store_vfs : MscVfs → Act (Component W) ℕ
  store_vfs v = do
    a ← gets (λ s. s.next_vfs)
    modify (λ s. record s { vfs = λ i. if i == a then some v else s.vfs i; next_vfs = a + 1 })
    pure a

  unfoldable pub register_vfs : Option ℕ → Act (Component W) ℕ
  unfolding msc_host_vfs_register store_vfs mount_cfg
  register_vfs handle = do
    v ←
        on_volumes
          (msc_host_vfs_register U recovery ff_volumes F handle (some mnt_path) (some mount_cfg))
    store_vfs v

  unfoldable pub unregister_vfs : ℕ → Act (Component W) (Unit {0})
  unfolding msc_host_vfs_unregister
  unregister_vfs a = do
    v ← gets (λ s. s.vfs a)
    on_volumes (msc_host_vfs_unregister U recovery ff_volumes F v)

  -- The callback has received the events whatever the call returns.
  unfoldable pub handled_events : Act (Component W) (List MscEvent)
  unfolding msc_host_handle_events
  handled_events = do (status, events) ← on_driver (msc_host_handle_events U); pure events

  pub returned-length :
      (n : ℕ) (s s' : Component W) (st : Status) (out : List ℕ) (m : Option (Result Reply × St W))
      → Returns (ReplyHas n) m
      → rejoin_driver s m ≡ some (ok (st, out), s')
      → length out ≡ n
  unfolding Returns
  returned-length n s s' st out none h e = ground arith
  returned-length n s s' st out (some (err x, msc)) h e = ground arith
  returned-length n s s' st out (some (ok reply, msc)) h e =
      ap (λ o. length (buffer_of o)) (sym e) ∙ h
    where
      buffer_of : Option (Result Reply × Component W) → List ℕ
      buffer_of none = []
      buffer_of (some (ok r, t)) = r.1
      buffer_of (some (err x, t)) = []

  unfoldable pub component_api : MscApi (Component W)
  unfolding register_vfs unregister_vfs handled_events msc_host_install msc_host_install_device
      msc_host_uninstall_device scsi_cmd_unit_ready scsi_cmd_read_capacity scsi_cmd_read10
      scsi_cmd_write10 msc_cfg
  component_api = record {
    host_install = on_driver (lib usb_host_install);
    msc_install = on_driver (msc_host_install U (some msc_cfg));
    install_device = λ a. on_driver (msc_host_install_device U recovery a);
    uninstall_device = λ h. on_driver (msc_host_uninstall_device U recovery (some h));
    vfs_register = register_vfs;
    vfs_unregister = unregister_vfs;
    handle_events = handled_events;
    unit_ready = λ h. on_driver (scsi_cmd_unit_ready U recovery h);
    read_capacity = λ h. on_driver (scsi_cmd_read_capacity U recovery h);
    read10 = λ h buffer lba n size. on_driver (scsi_cmd_read10 U recovery h buffer lba n size);
    write10 = λ h payload lba n size. on_driver (scsi_cmd_write10 U recovery h payload lba n size);
    length-read10 = λ h buffer lba n size s s' st out e.
        returned-length (length buffer) s s' st out
          (scsi_cmd_read10 U recovery h buffer lba n size s.volumes.msc)
          (scsi_cmd_read10-length U recovery h buffer lba n size s.volumes.msc) e;
  }

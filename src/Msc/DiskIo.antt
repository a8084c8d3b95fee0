-- ===== src/Msc/DiskIo.antt =====
-- src/usb_mass_storage/usb_host_msc/src/diskio_usb.c: the disks that FatFs reaches by a drive
-- number. A disk is a field of its device, and is known by the device's address.
pub mod Registry
use bindkey_esp.Base.{
  ℕ, zero, suc, ◌+◌, ◌%◌, ◌^◌, Bool, true, false, Option, none, some, List, [], ◌∷◌, ◌==◌, ltb,
  if◌then◌else◌, Result, ok, err, Status,
}
use bindkey_esp.Base.Action.{Act, pure, modify, gets, deref, assert, ◌>>=◌, ◌>>◌}
use bindkey_esp.Msc.Types.{UsbDisk, UsbHost, St, load}
use bindkey_esp.Msc.Bot.{Reply}
use bindkey_esp.Msc.Scsi.{scsi_cmd_read10, scsi_cmd_write10}

-- `DRESULT`, as far as the driver returns it.
pub data DResult : Type 0 where
  res_ok res_error : DResult

-- The commands of FatFs.
pub data Ioctl : Type 0 where
  ctrl_sync get_sector_count get_sector_size get_block_size other_ioctl : Ioctl

-- `s_disks`, which has `FF_VOLUMES` entries, beside the driver's memory.
pub record Volumes (W : Type 0) : Type 0 where
  pub disks : List (Option ℕ)
  pub msc : St W

-- The entry of an array of pointers, null behind its end.
unfoldable pub disk_at : ℕ → List (Option ℕ) → Option ℕ
disk_at i [] = none
disk_at zero (d ∷ rest) = d
disk_at (suc i) (d ∷ rest) = disk_at i rest

unfoldable pub set_disk : ℕ → Option ℕ → List (Option ℕ) → List (Option ℕ)
set_disk i v [] = []
set_disk zero v (d ∷ rest) = v ∷ rest
set_disk (suc i) v (d ∷ rest) = d ∷ set_disk i v rest

abbrev pub is_disk : ℕ → Option ℕ → Bool
is_disk d none = false
is_disk d (some a) = d == a

-- The loop from volume `i`.
unfoldable pub search_disk : ℕ → ℕ → List (Option ℕ) → ℕ
search_disk d i [] = 0xff
search_disk d i (v ∷ rest) =
    let later = search_disk d (i + 1) rest in if is_disk d v then i % 2 ^ 8 else later

unfoldable pub dresult : Status → DResult
dresult (ok _) = res_ok
dresult (err e) = res_error

module _ {W : Type 0} (U : UsbHost W) (recover : ℕ → Act (St W) (Unit {0})) (ff_volumes : ℕ) where
  abbrev pub rejoin_msc :
      {A : Type 0} → Volumes W → Option (Result A × St W) → Option (Result A × Volumes W)
  rejoin_msc s none = none
  rejoin_msc s (some (r, msc)) = some (r, record s { msc = msc })

  abbrev pub on_msc : {A : Type 0} → Act (St W) A → Act (Volumes W) A
  on_msc m s = rejoin_msc s (m s.msc)

  unfoldable pub usb_disk_initialize : ℕ → DResult
  usb_disk_initialize pdrv = res_ok

  unfoldable pub usb_disk_status : ℕ → DResult
  usb_disk_status pdrv = res_ok

  -- The two assertions that each operation starts with.
  unfoldable pub disk_of : ℕ → Act (Volumes W) ℕ
  unfolding disk_at
  disk_of pdrv = do
    assert (ltb pdrv ff_volumes)
    disks ← gets (λ s. s.disks)
    deref (disk_at pdrv disks)

  unfoldable pub usb_disk_read :
      (pdrv : ℕ) (buff : List ℕ) (sector count : ℕ) → Act (Volumes W) (DResult × List ℕ)
  unfolding disk_of load scsi_cmd_read10 dresult
  usb_disk_read pdrv buff sector count = do
    d ← disk_of pdrv
    device ← on_msc (load d)
    (status, received) ←
        on_msc (scsi_cmd_read10 U recover d buff sector count device.disk.block_size)
    pure (dresult status, received)

  unfoldable pub usb_disk_write :
      (pdrv : ℕ) (buff : List ℕ) (sector count : ℕ) → Act (Volumes W) DResult
  unfolding disk_of load scsi_cmd_write10 dresult
  usb_disk_write pdrv buff sector count = do
    d ← disk_of pdrv
    device ← on_msc (load d)
    status ← on_msc (scsi_cmd_write10 U recover d buff sector count device.disk.block_size)
    pure (dresult status)

  -- The result, and the number that is written to the caller's variable.
  unfoldable pub ioctl_result : Ioctl → UsbDisk → DResult × Option ℕ
  ioctl_result ctrl_sync disk = (res_ok, none)
  ioctl_result get_sector_count disk = (res_ok, some (disk.block_count % 2 ^ 32))
  ioctl_result get_sector_size disk = (res_ok, some (disk.block_size % 2 ^ 16))
  ioctl_result get_block_size disk = (res_error, none)
  ioctl_result other_ioctl disk = (res_error, none)

  unfoldable pub usb_disk_ioctl : ℕ → Ioctl → Act (Volumes W) (DResult × Option ℕ)
  unfolding disk_of load ioctl_result
  usb_disk_ioctl pdrv cmd = do
    d ← disk_of pdrv
    device ← on_msc (load d)
    pure (ioctl_result cmd device.disk)

  -- FatFs is told of the functions by `register`.
  unfoldable pub ff_diskio_register_msc :
      (register : ℕ → W → W) → ℕ → ℕ → Act (Volumes W) (Unit {0})
  unfolding set_disk
  ff_diskio_register_msc register pdrv d = do
    assert (ltb pdrv ff_volumes)
    modify (λ s. record s { disks = set_disk pdrv (some d) s.disks })
    modify (λ s. record s { msc = record s.msc { world = register pdrv s.msc.world } })

  unfoldable pub ff_diskio_get_pdrv_disk : ℕ → Act (Volumes W) ℕ
  unfolding search_disk
  ff_diskio_get_pdrv_disk d = gets (λ s. search_disk d 0 s.disks)

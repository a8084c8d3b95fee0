-- ===== src/MassStorage/Component/Drive.antt =====
-- The drive behind the commands of src/usb_mass_storage/usb_host_msc/src/msc_scsi_bot.c, as
-- src/usb_mass_storage/block_device.rs calls them.
use bindkey_esp.Base.{ℕ, ◌*◌, ◌%◌, ◌^◌, ◌≡◌, refl, arith, some, List, length, ok}
use bindkey_esp.Base.Action.{Act}
use bindkey_esp.MassStorage.BlockDevice.Store.{Disk, sectors, stored, InReach, IsDrive}
use bindkey_esp.MassStorage.Component.{Component, component_api}
use bindkey_esp.MassStorage.Component.Sectors.{tag_after, tagged}
use bindkey_esp.Msc.Types.{UsbHost, St}
use bindkey_esp.Msc.Vfs.{Fat}
use bindkey_esp.Msc.Command.{command, read10_block, write10_block, dir_in, dir_out}
use bindkey_esp.Msc.Bot.{bot_execute_command}
use bindkey_esp.Msc.Scsi.{
  scsi_cmd_read10, scsi_cmd_write10, execute, after_command, msc_host_reset_recovery,
}

abbrev pub with_msc : {W : Type 0} → Component W → St W → Component W
with_msc s m = record s { volumes = record s.volumes { msc = m } }

-- A device on the bus that answers each READ(10) and WRITE(10) in its reach as a disk does, while the
-- component's memory and the libraries are as `up` wants them.
pub record AnswersCommands {W : Type 0} (U : UsbHost W) (depth h bs bc : ℕ) (disk_of : St W → Disk)
    (up : St W → Type 0) : Type 0 where
  pub after_read : (lba n : ℕ) → St W → St W
  pub after_write : (lba n : ℕ) → List ℕ → St W → St W
  pub reads :
      (buffer : List ℕ) (lba n : ℕ) (m : St W)
      → up m
      → InReach bs bc lba n
      → length buffer ≡ n * bs
      → bot_execute_command U
          (msc_host_reset_recovery U depth)
          h
          (command dir_in (tag_after m) (n * bs) (read10_block lba n))
          (some buffer)
          (n * bs)
          (tagged m)
        ≡ some (ok (ok tt, sectors (disk_of m) lba n), after_read lba n m)
  pub writes :
      (payload : List ℕ) (lba n : ℕ) (m : St W)
      → up m
      → InReach bs bc lba n
      → length payload ≡ n * bs
      → bot_execute_command U
          (msc_host_reset_recovery U depth)
          h
          (command dir_out (tag_after m) (n * bs) (write10_block lba n))
          (some payload)
          (n * bs)
          (tagged m)
        ≡ some (ok (ok tt, payload), after_write lba n payload m)
  pub read_keeps :
      (lba n : ℕ) (m : St W) → up m → InReach bs bc lba n → disk_of (after_read lba n m) ≡ disk_of m
  pub write_stores :
      (payload : List ℕ) (lba n : ℕ) (m : St W)
      → up m
      → InReach bs bc lba n
      → length payload ≡ n * bs
      → disk_of (after_write lba n payload m) ≡ stored bs lba n payload (disk_of m)
  pub up_after_read : (lba n : ℕ) (m : St W) → up m → InReach bs bc lba n → up (after_read lba n m)
  pub up_after_write :
      (payload : List ℕ) (lba n : ℕ) (m : St W)
      → up m
      → InReach bs bc lba n
      → length payload ≡ n * bs
      → up (after_write lba n payload m)

module _ {W : Type 0} (U : UsbHost W) (depth h bs bc : ℕ) (disk_of : St W → Disk)
    (up : St W → Type 0) (a : AnswersCommands U depth h bs bc disk_of up) where
  scsi_cmd_read10-answered :
      (buffer : List ℕ) (lba n : ℕ) (m : St W)
      → up m
      → InReach bs bc lba n
      → length buffer ≡ n * bs
      → scsi_cmd_read10 U (msc_host_reset_recovery U depth) h buffer lba n bs m
        ≡ some (ok (ok tt, sectors (disk_of m) lba n), a.after_read lba n m)
  unfolding scsi_cmd_read10 execute after_command
  scsi_cmd_read10-answered buffer lba n m u r sized =
      let whole : n * bs % 2 ^ 32 ≡ n * bs = omega (arith, r.addressable) in
      rw whole (rw (a.reads buffer lba n m u r sized) refl)

  scsi_cmd_write10-answered :
      (payload : List ℕ) (lba n : ℕ) (m : St W)
      → up m
      → InReach bs bc lba n
      → length payload ≡ n * bs
      → scsi_cmd_write10 U (msc_host_reset_recovery U depth) h payload lba n bs m
        ≡ some (ok (ok tt), a.after_write lba n payload m)
  unfolding scsi_cmd_write10 execute after_command
  scsi_cmd_write10-answered payload lba n m u r sized =
      let whole : n * bs % 2 ^ 32 ≡ n * bs = omega (arith, r.addressable) in
      rw whole (rw (a.writes payload lba n m u r sized) refl)

  -- The component is a drive for the block device where the device on the bus answers each READ(10)
  -- and WRITE(10) in its reach as a disk does.
  pub component_api-IsDrive :
      (F : Fat W) (usb_host_install : Act W (Unit {0})) (ff_volumes : ℕ)
      → IsDrive
          (component_api U F usb_host_install depth ff_volumes)
          h
          bs
          bc
          (λ s. disk_of s.volumes.msc)
          (λ s. up s.volumes.msc)
  unfolding component_api
  component_api-IsDrive F usb_host_install ff_volumes = record {
    after_read = λ lba n s. with_msc s (a.after_read lba n s.volumes.msc);
    after_write = λ lba n payload s. with_msc s (a.after_write lba n payload s.volumes.msc);
    reads = λ buffer lba n s u r sized.
        rw (scsi_cmd_read10-answered buffer lba n s.volumes.msc u r sized) refl;
    writes = λ payload lba n s u r sized.
        rw (scsi_cmd_write10-answered payload lba n s.volumes.msc u r sized) refl;
    read_keeps = λ lba n s u r. a.read_keeps lba n s.volumes.msc u r;
    write_stores =
        λ payload lba n s u r sized. a.write_stores payload lba n s.volumes.msc u r sized;
    up_after_read = λ lba n s u r. a.up_after_read lba n s.volumes.msc u r;
    up_after_write =
        λ payload lba n s u r sized. a.up_after_write payload lba n s.volumes.msc u r sized;
  }

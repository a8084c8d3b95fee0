-- ===== src/Msc/Scsi/Errors.antt =====
-- Which error a command of src/usb_mass_storage/usb_host_msc/src/msc_scsi_bot.c returns.
use bindkey_esp.Base.{ℕ, ◌*◌, ◌%◌, ◌^◌, ◌≡◌, refl, some, List, Result, Status, ok, err}
use bindkey_esp.Base.Action.{Act}
use bindkey_esp.Msc.Types.{UsbHost, St}
use bindkey_esp.Msc.Command.{Sense, read10_block, dir_in}
use bindkey_esp.Msc.Scsi.{execute, scsi_cmd_sense, check_sense, after_command, scsi_cmd_read10}

-- The status of a command and the state that it leaves, from the status of its exchange at the
-- state `exchanged` and what a sense request would return there, at the state `sensed`.
abbrev pub reported :
    {W : Type 0} → Status → Result Sense → (exchanged sensed : St W) → Status × St W
reported (ok _) sense exchanged sensed = (ok tt, exchanged)
reported (err e) (ok key) exchanged sensed = (err e, sensed)
reported (err e) (err sense_error) exchanged sensed = (err sense_error, sensed)

module _ {W : Type 0} (U : UsbHost W) (recover : ℕ → Act (St W) (Unit {0})) (d : ℕ) where
  after_command-reported :
      (st : Status) (sense : Result Sense) (exchanged sensed : St W)
      → scsi_cmd_sense U recover d exchanged ≡ some (sense, sensed)
      → after_command U recover d st exchanged
        ≡ some (ok (reported st sense exchanged sensed).0, (reported st sense exchanged sensed).1)
  unfolding after_command check_sense
  after_command-reported (ok _) sense exchanged sensed asked = refl
  after_command-reported (err e) (ok key) exchanged sensed asked = rw asked refl
  after_command-reported (err e) (err x) exchanged sensed asked = rw asked refl

  -- For a READ(10) whose exchange with the device returns, and after which a sense request returns:
  -- if the exchange succeeds, the command returns success and leaves the state as the exchange left
  -- it, without a sense request. If it fails, the sense data is requested once, and the command
  -- returns the error of the exchange if that request succeeds, and the error of the request if it
  -- fails. The caller gets what the exchange left in the buffer in every case.
  pub scsi_cmd_read10-reported :
      (buffer out : List ℕ) (sector_address num_sectors sector_size : ℕ) (st : Status)
      (sense : Result Sense) (s exchanged sensed : St W)
      → execute U recover d dir_in
          (num_sectors * sector_size % 2 ^ 32)
          (read10_block sector_address num_sectors)
          (some buffer)
          s
        ≡ some (ok (st, out), exchanged)
      → scsi_cmd_sense U recover d exchanged ≡ some (sense, sensed)
      → scsi_cmd_read10 U recover d buffer sector_address num_sectors sector_size s
        ≡ some (
          ok ((reported st sense exchanged sensed).0, out),
          (reported st sense exchanged sensed).1,
        )
  unfolding scsi_cmd_read10
  scsi_cmd_read10-reported buffer out sector_address num_sectors sector_size st sense s exchanged
        sensed moved asked =
      rw (moved, after_command-reported st sense exchanged sensed asked) refl

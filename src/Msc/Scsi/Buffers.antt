-- ===== src/Msc/Scsi/Buffers.antt =====
-- The caller's buffer through `scsi_cmd_read10` of
-- src/usb_mass_storage/usb_host_msc/src/msc_scsi_bot.c.
use bindkey_esp.Base.{ℕ, ◌*◌, ◌%◌, ◌^◌, some, List, length}
use bindkey_esp.Base.Action.{Act}
use bindkey_esp.Base.Returns.{Returns, Returns-resume, Returns-resume_from}
use bindkey_esp.Msc.Types.{UsbHost, St}
use bindkey_esp.Msc.Command.{command, read10_block, dir_in}
use bindkey_esp.Msc.Bot.{next_tag}
use bindkey_esp.Msc.Bot.Length.{ReplyHas, returned, bot_execute_command-length}
use bindkey_esp.Msc.Scsi.{execute, after_command, scsi_cmd_read10}

module _ {W : Type 0} (U : UsbHost W) (recover : ℕ → Act (St W) (Unit {0})) where
  execute-length :
      (d dir data_length : ℕ) (block payload : List ℕ) (s : St W)
      → Returns
          (ReplyHas (length payload))
          (execute U recover d dir data_length block (some payload) s)
  unfolding execute
  execute-length d dir data_length block payload s =
      Returns-resume (ReplyHas (length payload)) (next_tag s) _ λ tag s'.
        bot_execute_command-length U recover d (command dir tag data_length block) payload
          data_length s'

  -- A read of sectors that does not crash gives back a buffer of the length that it was given, on
  -- every path: a stalled endpoint, a failed command and its sense request, a reset recovery, and
  -- data of any length that the device sends.
  pub scsi_cmd_read10-length :
      (d : ℕ) (buffer : List ℕ) (sector_address num_sectors sector_size : ℕ) (s : St W)
      → Returns
          (ReplyHas (length buffer))
          (scsi_cmd_read10 U recover d buffer sector_address num_sectors sector_size s)
  unfolding scsi_cmd_read10
  scsi_cmd_read10-length d buffer sector_address num_sectors sector_size s =
      Returns-resume_from (ReplyHas (length buffer)) (ReplyHas (length buffer)) _ _
        (execute-length d dir_in (num_sectors * sector_size % 2 ^ 32)
          (read10_block sector_address num_sectors) buffer s)
        λ reply s' h.
          Returns-resume (ReplyHas (length buffer)) (after_command U recover d reply.0 s') _
            λ final s''. returned (final, reply.1) s'' h

-- ===== src/Msc/Scsi.antt =====
-- The SCSI commands of src/usb_mass_storage/usb_host_msc/src/msc_scsi_bot.c, and the recovery of
-- src/msc_host.c that uses them.
pub mod Buffers
pub mod Kept
pub mod Errors
pub mod Ready
use bindkey_esp.Base.{
  ℕ, zero, suc, ◌*◌, ◌/◌, ◌%◌, ◌^◌, Bool, ◌||◌, Option, none, some, List, ◌==◌, EspErr, Status, ok,
  err, msc_internal, replicate,
}
use Prim.Native.Nat.{max}
use bindkey_esp.Base.Action.{
  Act, pure, throw, crash, gets, ignore, attempt, modify, guard, ◌>>=◌, ◌>>◌, from_result,
}
use bindkey_esp.Base.Words.{u32_at, bswap32}
use bindkey_esp.Msc.Types.{UsbHost, St, load}
use bindkey_esp.Msc.Transfer.{clear_feature, msc_mass_reset}
use bindkey_esp.Msc.Command.{
  command, read10_block, write10_block, read_capacity_block, unit_ready_block, sense_block,
  sense_size, inquiry_block, inquiry_size, mode_sense_block, mode_sense_size, prevent_removal_block,
  dir_in, dir_out, Sense, read_sense,
}
use bindkey_esp.Msc.Bot.{Reply, next_tag, bot_execute_command}

abbrev pub wait_for_ready_timeout_ms : ℕ
wait_for_ready_timeout_ms = 5000

module _ {W : Type 0} (U : UsbHost W) (recover : ℕ → Act (St W) (Unit {0})) where
  -- `CBW_BASE_INIT` and the execution of the command that it starts.
  unfoldable pub execute : ℕ → ℕ → ℕ → List ℕ → Option (List ℕ) → Act (St W) Reply
  unfolding next_tag command
  execute d dir data_length block payload = do
    tag ← next_tag
    bot_execute_command U recover d (command dir tag data_length block) payload data_length

  unfoldable pub scsi_cmd_sense : ℕ → Act (St W) Sense
  unfolding execute read_sense
  scsi_cmd_sense d = do
    before ← gets (λ s. U.uninit sense_size s.world)
    (status, response) ← execute d dir_in sense_size sense_block (some before)
    from_result status
    pure (read_sense response)

  -- `if (ret != ESP_OK) MSC_RETURN_ON_ERROR(scsi_cmd_sense(device, NULL));`
  unfoldable pub check_sense : ℕ → Status → Act (St W) (Unit {0})
  unfolding scsi_cmd_sense
  check_sense d (ok _) = pure tt
  check_sense d (err e) = do _ ← scsi_cmd_sense d; pure tt

  -- The status that a command returns: that of the sense request, if that was made and failed.
  unfoldable pub final_status : Status → Status → Status
  final_status status (ok _) = status
  final_status status (err sense_error) = err sense_error

  unfoldable pub after_command : ℕ → Status → Act (St W) Status
  unfolding check_sense final_status
  after_command d status = do
    checked ← attempt (check_sense d status)
    pure (final_status status checked)

  unfoldable pub scsi_cmd_read10 :
      (d : ℕ) (buffer : List ℕ) (sector_address num_sectors sector_size : ℕ) → Act (St W) Reply
  unfolding execute read10_block after_command
  scsi_cmd_read10 d buffer sector_address num_sectors sector_size = do
    (status, received) ←
        execute d dir_in (num_sectors * sector_size % 2 ^ 32)
          (read10_block sector_address num_sectors) (some buffer)
    final ← after_command d status
    pure (final, received)

  unfoldable pub scsi_cmd_write10 :
      (d : ℕ) (payload : List ℕ) (sector_address num_sectors sector_size : ℕ) → Act (St W) Status
  unfolding execute write10_block after_command
  scsi_cmd_write10 d payload sector_address num_sectors sector_size = do
    (status, _) ←
        execute d dir_out (num_sectors * sector_size % 2 ^ 32)
          (write10_block sector_address num_sectors) (some payload)
    after_command d status

  -- The block size and the block count, read from the response also when the command failed and
  -- its sense could be read.
  abbrev capacity_of : List ℕ → ℕ × ℕ
  capacity_of response = (bswap32 (u32_at 4 response), bswap32 (u32_at 0 response))

  capacity_result : Status → List ℕ → Status → Status × Option (ℕ × ℕ)
  unfolding bswap32 u32_at
  capacity_result status response (ok _) = (status, some (capacity_of response))
  capacity_result status response (err sense_error) = (err sense_error, none)

  unfoldable pub scsi_cmd_read_capacity : ℕ → Act (St W) (Status × Option (ℕ × ℕ))
  unfolding execute capacity_result check_sense
  scsi_cmd_read_capacity d = do
    before ← gets (λ s. U.uninit 8 s.world)
    (status, response) ← execute d dir_in 8 read_capacity_block (some before)
    checked ← attempt (check_sense d status)
    pure (capacity_result status response checked)

  unfoldable pub scsi_cmd_unit_ready : ℕ → Act (St W) Status
  unfolding execute after_command
  scsi_cmd_unit_ready d = do
    (status, _) ← execute d dir_in 0 unit_ready_block none
    after_command d status

  unfoldable pub scsi_cmd_inquiry : ℕ → Act (St W) Status
  unfolding execute after_command
  scsi_cmd_inquiry d = do
    (status, _) ← execute d dir_in inquiry_size inquiry_block (some (replicate inquiry_size 0))
    after_command d status

  unfoldable pub scsi_cmd_mode_sense : ℕ → Act (St W) Status
  unfolding execute after_command
  scsi_cmd_mode_sense d = do
    (status, _) ←
        execute d dir_in mode_sense_size mode_sense_block (some (replicate mode_sense_size 0))
    after_command d status

  unfoldable pub scsi_cmd_prevent_removal : ℕ → Bool → Act (St W) Status
  unfolding execute after_command prevent_removal_block
  scsi_cmd_prevent_removal d prevent = do
    (status, _) ← execute d dir_out 0 (prevent_removal_block prevent) none
    after_command d status

  -- `MSC_NO_SENSE`, `MSC_NOT_READY` and `MSC_UNIT_ATTENTION`.
  unfoldable pub may_become_ready : ℕ → Bool
  may_become_ready key = key == 2 || key == 6 || key == 0

  -- What the loop does with the status of one poll; `again` is the rest of the loop.
  after_poll : ℕ → Status → (EspErr → Act (St W) (Unit {0})) → Act (St W) (Unit {0})
  unfolding scsi_cmd_sense may_become_ready
  after_poll d (ok _) again = pure tt
  after_poll d (err e) again = do
    sense ← scsi_cmd_sense d
    guard (may_become_ready sense.key) msc_internal
    modify (λ s. record s { world = U.task_delay 100 s.world })
    again e

  -- `do { .. } while (trials-- && err)`: the first poll, and one more for each trial left.
  unfoldable pub ready_loop : ℕ → ℕ → Act (St W) (Unit {0})
  unfolding scsi_cmd_unit_ready after_poll
  ready_loop zero d = do status ← scsi_cmd_unit_ready d; after_poll d status throw
  ready_loop (suc trials) d = do
    status ← scsi_cmd_unit_ready d
    after_poll d status (λ _. ready_loop trials d)

  unfoldable pub msc_wait_for_ready_state : ℕ → ℕ → Act (St W) (Unit {0})
  unfolding ready_loop
  msc_wait_for_ready_state d timeout_ms = ready_loop (max 1 (timeout_ms / 100)) d

  -- `msc_host_reset_recovery`
  unfoldable pub reset_recovery_step : ℕ → Act (St W) (Unit {0})
  unfolding load msc_mass_reset clear_feature msc_wait_for_ready_state
  reset_recovery_step d = do
    msc_mass_reset U d
    device ← load d
    ignore (clear_feature U d device.config.bulk_in_ep)
    ignore (clear_feature U d device.config.bulk_out_ep)
    msc_wait_for_ready_state d wait_for_ready_timeout_ms

-- A reset recovery polls the device, and a poll may start a reset recovery: the depth is the number
-- of recoveries that may be nested before the stack is exhausted.
unfoldable pub msc_host_reset_recovery :
    {W : Type 0} → UsbHost W → (depth : ℕ) → ℕ → Act (St W) (Unit {0})
unfolding reset_recovery_step
msc_host_reset_recovery U zero d = crash
msc_host_reset_recovery U (suc depth) d = reset_recovery_step U (msc_host_reset_recovery U depth) d

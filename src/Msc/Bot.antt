-- ===== src/Msc/Bot.antt =====
-- `bot_execute_command` of src/usb_mass_storage/usb_host_msc/src/msc_scsi_bot.c: one command of
-- the Bulk-Only Transport. Its error recovery runs other commands, and so may come back to it; the
-- depth of such nested recoveries is bounded in `Scsi`, and here the recovery is a parameter.
pub mod Length
pub mod Kept
use bindkey_esp.Base.{
  ℕ, ◌+◌, ◌-◌, ◌%◌, ◌^◌, bit_and, Option, none, some, List, [], ◌++◌, ◌==◌, if◌then◌else◌, length,
  take, Result, Status, ok, err, msc_stall,
}
use bindkey_esp.Base.Action.{Act, pure, throw, gets, ignore, attempt, ◌>>=◌, ◌>>◌, from_result}
use bindkey_esp.Msc.Types.{MscEndpoint, ep_out, ep_in, UsbHost, St, load}
use bindkey_esp.Msc.Transfer.{msc_bulk_transfer, clear_feature}
use bindkey_esp.Msc.Command.{
  Cbw, Command, command_bytes, dir_in, cbw_size, csw_size, read_csw, check_csw,
}

-- The status that a command returns, and what the caller's data buffer holds afterwards.
abbrev pub Reply : Type 0
Reply = Status × List ℕ

-- `++cbw_tag` on the `uint32_t` counter.
unfoldable pub next_tag : {W : Type 0} → Act (St W) ℕ
next_tag s = let tag = (s.cbw_tag + 1) % 2 ^ 32 in some (ok tag, record s { cbw_tag = tag })

-- `(cbw->flags & CWB_FLAG_DIRECTION_IN) ? MSC_EP_IN : MSC_EP_OUT`
unfoldable pub data_endpoint : Cbw → MscEndpoint
data_endpoint cbw = if bit_and cbw.flags dir_in == 0 then ep_out else ep_in

module _ {W : Type 0} (U : UsbHost W) (reset_recovery : ℕ → Act (St W) (Unit {0})) where
  -- Stage 1. The transfer is always 31 bytes long, and the structs are shorter: the bytes behind
  -- the struct go along.
  unfoldable pub command_transport : ℕ → Command → Act (St W) (List ℕ)
  command_transport d c = do
    behind ← gets (λ s. U.uninit (cbw_size - length (command_bytes c)) s.world)
    msc_bulk_transfer U d (take cbw_size (command_bytes c ++ behind)) cbw_size ep_out

  -- Stage 2, for data that is not `NULL`.
  unfoldable pub data_transport : ℕ → Cbw → Option (List ℕ) → ℕ → Act (St W) (List ℕ)
  unfolding data_endpoint
  data_transport d cbw none size = pure []
  data_transport d cbw (some payload) size = msc_bulk_transfer U d payload size (data_endpoint cbw)

  read_status : ℕ → List ℕ → Act (St W) (List ℕ)
  read_status d csw = msc_bulk_transfer U d csw csw_size ep_in

  -- The second attempt at the status, and the reset recovery if it fails too.
  retry_result : ℕ → Result (List ℕ) → Act (St W) (List ℕ)
  retry_result d (ok csw) = pure csw
  retry_result d (err e) = do ignore (reset_recovery d); throw e

  -- A stall of the status transport is cleared and the status read once more.
  status_result : ℕ → List ℕ → Result (List ℕ) → Act (St W) (List ℕ)
  unfolding read_status retry_result load
  status_result d csw (ok csw') = pure csw'
  status_result d csw (err msc_stall) = do
    device ← load d
    clear_feature U d device.config.bulk_in_ep
    again ← attempt (read_status d csw)
    retry_result d again
  status_result d csw (err e) = throw e

  -- Stage 3, with `check_csw`.
  unfoldable pub status_transport : ℕ → ℕ → Act (St W) (Unit {0})
  unfolding read_status status_result
  status_transport d tag = do
    csw ← gets (λ s. U.uninit csw_size s.world)
    first ← attempt (read_status d csw)
    final ← status_result d csw first
    from_result (check_csw (read_csw final) tag)

  after_data : ℕ → Command → List ℕ → Result (List ℕ) → Act (St W) Reply
  unfolding status_transport
  after_data d c before (err e) = pure (err e, before)
  after_data d c before (ok payload) = do
    status ← attempt (status_transport d c.base.tag)
    pure (status, payload)

  -- The caller's buffer, or nothing for `NULL`.
  abbrev pub contents : Option (List ℕ) → List ℕ
  contents none = []
  contents (some payload) = payload

  after_command : ℕ → Command → Option (List ℕ) → ℕ → Result (List ℕ) → Act (St W) Reply
  unfolding data_transport after_data
  after_command d c payload size (err e) = pure (err e, contents payload)
  after_command d c payload size (ok sent) = do
    moved ← attempt (data_transport d c.base payload size)
    after_data d c (contents payload) moved

  unfoldable pub bot_execute_command : ℕ → Command → Option (List ℕ) → ℕ → Act (St W) Reply
  unfolding command_transport after_command
  bot_execute_command d c payload size = do
    sent ← attempt (command_transport d c)
    after_command d c payload size sent

-- ===== src/Examples/Ready.antt =====
-- The wait for readiness at a concrete drive.
use bindkey_esp.Base.{
  ℕ, ◌+◌, ◌-◌, ◌*◌, ◌/◌, ◌%◌, ◌≡◌, refl, arith, Option, none, some, [], ◌∷◌, ◌++◌, Result, ok, err,
  ◌==◌, ◌&&◌, ◌||◌, ltb, if◌then◌else◌, replicate, fail, overwrite,
}
use bindkey_esp.Base.Action.{Act, pure}
use bindkey_esp.Base.Words.{u32_le}
use bindkey_esp.Msc.Types.{UsbHost, St, Completion, completed}
use bindkey_esp.Msc.Command.{csw_signature, command_bytes, check_csw, read_csw}
use bindkey_esp.Msc.Bot.{bot_execute_command}
use bindkey_esp.Msc.Transfer.{msc_bulk_transfer}
use bindkey_esp.Msc.Device.{zero_device}
use bindkey_esp.Msc.Scsi.{
  scsi_cmd_unit_ready, scsi_cmd_sense, may_become_ready, msc_wait_for_ready_state,
}
use bindkey_esp.Msc.Scsi.Ready.{
  Unready, done, more, paused, msc_wait_for_ready_state-ready, msc_wait_for_ready_state-Unready,
}
use bindkey_esp.Examples.Worlds.{three_bytes, small_xfer}

-- What a drive answers that is asked to be ready, and its sense twice after each refusal: each
-- round of eight transfers uses three tags.
abbrev answer_of : (refusals transfer : ℕ) → Completion
answer_of refusals transfer =
    let round = (transfer - 1) / 8 in
    let place = (transfer - 1) % 8 in
    let tag =
      if place == 1 then round * 3 + 1 else if place == 4 then round * 3 + 2 else round * 3 + 3 in
    let status = if place == 1 && ltb round refusals then 1 else 0 in
    let wrapper = u32_le csw_signature ++ (u32_le tag ++ (u32_le 0 ++ (status ∷ []))) in
    if place == 3 || place == 6
    then record { status = completed; actual_num_bytes = 18; received = replicate 18 0 }
    else record { status = completed; actual_num_bytes = 13; received = wrapper }

abbrev slow_drive : ℕ → UsbHost ℕ
slow_drive refusals = record three_bytes { completion = answer_of refusals }

abbrev no_recovery : ℕ → Act (St ℕ) (Unit {0})
no_recovery d = pure tt

abbrev start : St ℕ
start = record {
  driver = none;
  heap = λ d. some (record zero_device { xfer = some small_xfer });
  cbw_tag = 0;
  world = 0;
}

abbrev pub state_of : {A : Type 0} → St ℕ → Option (Result A × St ℕ) → St ℕ
state_of s none = s
state_of s (some (r, t)) = t

module _ (refusals : ℕ) where
  abbrev polled : St ℕ → St ℕ
  polled s = state_of s (scsi_cmd_unit_ready (slow_drive refusals) no_recovery 7 s)

  abbrev sensed : St ℕ → St ℕ
  sensed s = state_of s (scsi_cmd_sense (slow_drive refusals) no_recovery 7 (polled s))

  abbrev again : St ℕ → St ℕ
  again s = paused (slow_drive refusals) no_recovery 7 (sensed s)

first_poll : Unready (slow_drive 2) no_recovery 7 start fail (again 2 start)
unfolding scsi_cmd_unit_ready scsi_cmd_sense may_become_ready bot_execute_command msc_bulk_transfer
    command_bytes check_csw read_csw overwrite
first_poll = record {
  polled = polled 2 start;
  sensed = sensed 2 start;
  sense = record { key = 0; code = 0; code_q = 0 };
  refused = refl;
  asked = refl;
  hopeful = refl;
  next = refl;
}

second_poll : Unready (slow_drive 2) no_recovery 7 (again 2 start) fail (again 2 (again 2 start))
unfolding scsi_cmd_unit_ready scsi_cmd_sense may_become_ready bot_execute_command msc_bulk_transfer
    command_bytes check_csw read_csw overwrite
second_poll = record {
  polled = polled 2 (again 2 start);
  sensed = sensed 2 (again 2 start);
  sense = record { key = 0; code = 0; code_q = 0 };
  refused = refl;
  asked = refl;
  hopeful = refl;
  next = refl;
}

becomes_ready :
    scsi_cmd_unit_ready (slow_drive 2) no_recovery 7 (again 2 (again 2 start))
    ≡ some (ok (ok tt), polled 2 (again 2 (again 2 start)))
unfolding scsi_cmd_unit_ready scsi_cmd_sense may_become_ready bot_execute_command msc_bulk_transfer
    command_bytes check_csw read_csw overwrite
becomes_ready = refl

msc_wait_for_ready_state-ready_example :
    msc_wait_for_ready_state (slow_drive 2) no_recovery 7 200 start
    ≡ some (ok tt, polled 2 (again 2 (again 2 start)))
msc_wait_for_ready_state-ready_example =
    msc_wait_for_ready_state-ready (slow_drive 2) no_recovery 7 200 2
      (more first_poll (more second_poll done)) (omega arith) becomes_ready

msc_wait_for_ready_state-Unready_example :
    msc_wait_for_ready_state (slow_drive 2) no_recovery 7 0 start
    ≡ some (err fail, again 2 (again 2 start))
msc_wait_for_ready_state-Unready_example =
    msc_wait_for_ready_state-Unready (slow_drive 2) no_recovery 7 0 (more first_poll done)
      second_poll

-- ===== src/Examples/Stick/Write.antt =====
-- A WRITE(10) of the component against the drive of Stick.
use bindkey_esp.Base.{
  ℕ, ◌*◌, ◌≡◌, refl, ap, ◌∙◌, arith, some, List, [], length, take, overwrite, replicate, ok,
}
use bindkey_esp.Base.Action.{Act}
use bindkey_esp.MassStorage.BlockDevice.Store.{stored, InReach}
use bindkey_esp.MassStorage.Component.Sectors.{tag_after, tagged}
use bindkey_esp.Msc.Types.{St, ep_out, completed}
use bindkey_esp.Msc.Command.{command}
use bindkey_esp.Msc.Bot.{data_endpoint, bot_execute_command}
use bindkey_esp.Examples.Stick.{Stick, awaiting, reporting, storing, stick_host, good_csw, HasRoom}
use bindkey_esp.Examples.Stick.Stages.{
  transfer_out, out-HasRoom, in-HasRoom, command_world, storing_world, reporting_world, csw_passes,
}
use bindkey_esp.Examples.Stick.Drive.{
  frame_of, three_stages, write_for, begun, after_data_out, reported, IsUp, tagged-HasRoom,
  length-write_frame, write_decodes, status_stage,
}

-- The stages of a WRITE(10).
module _ (m : St Stick) (lba n : ℕ) (payload : List ℕ) (up : IsUp m) (r : InReach 2 8192 lba n)
    (count : length payload ≡ n * 2) where
  write_begun_world : (begun (write_for m lba n) m).world ≡ record m.world {
    phase = storing lba n;
    tag = tag_after m;
    last = record { status = completed; actual_num_bytes = 31; received = [] };
  }
  write_begun_world =
      command_world (frame_of (write_for m lba n)) (tagged m) (tagged-HasRoom m up.has_room)
        up.waits (length-write_frame m lba n) (write_decodes m lba n r)

  write_begun-HasRoom : HasRoom (begun (write_for m lba n) m)
  write_begun-HasRoom =
      out-HasRoom (frame_of (write_for m lba n)) 31 (tagged m) (tagged-HasRoom m up.has_room)

  write_data_world : (after_data_out lba n payload m).world ≡ record m.world {
    disk = stored 2 lba n payload m.world.disk;
    phase = reporting;
    tag = tag_after m;
    last = record { status = completed; actual_num_bytes = n * 2; received = [] };
  }
  write_data_world =
      storing_world payload (begun (write_for m lba n) m) (n * 2) write_begun-HasRoom count
        (omega (arith, r.on_drive)) (ap (λ w. w.phase) write_begun_world)
      ∙ ap {A = Stick}
          (λ w. record w {
            disk = stored 2 lba n payload w.disk;
            phase = reporting;
            last = record { status = completed; actual_num_bytes = n * 2; received = [] };
          })
          write_begun_world

  write_phase : (after_data_out lba n payload m).world.phase ≡ reporting
  write_phase = ap (λ w. w.phase) write_data_world

  write_data-HasRoom : HasRoom (after_data_out lba n payload m)
  write_data-HasRoom = out-HasRoom payload (n * 2) (begun (write_for m lba n) m) write_begun-HasRoom

  pub write_status_world : (reported (after_data_out lba n payload m)).world ≡ record m.world {
    disk = stored 2 lba n payload m.world.disk;
    tag = tag_after m;
    phase = awaiting;
    last = record { status = completed; actual_num_bytes = 13; received = good_csw (tag_after m) };
  }
  write_status_world =
      reporting_world (after_data_out lba n payload m) 13 write_phase
      ∙ ap {A = Stick}
          (λ w. record w {
            phase = awaiting;
            last = record { status = completed; actual_num_bytes = 13; received = good_csw w.tag };
          })
          write_data_world

  pub write_exchange :
      (recover : ℕ → Act (St Stick) (Unit {0}))
      → bot_execute_command stick_host recover 7
          (write_for m lba n)
          (some payload)
          (n * 2)
          (tagged m)
        ≡ some (ok (ok tt, payload), reported (after_data_out lba n payload m))
  unfolding command data_endpoint
  write_exchange recover =
      three_stages recover (write_for m lba n) ep_out payload payload
        (overwrite 0 (take 13 (good_csw (after_data_out lba n payload m).world.tag))
          (replicate 13 0))
        (n * 2) (tagged m) (begun (write_for m lba n) m) (after_data_out lba n payload m)
        (reported (after_data_out lba n payload m)) refl
        (transfer_out (frame_of (write_for m lba n)) 31 (tagged m) (tagged-HasRoom m up.has_room)
          (omega arith) (omega (arith, length-write_frame m lba n)))
        (transfer_out payload (n * 2) (begun (write_for m lba n) m) write_begun-HasRoom
          (omega (arith, r.on_drive)) (omega (arith, count)))
        (status_stage (after_data_out lba n payload m) write_data-HasRoom write_phase)
        (rw (ap (λ w. w.tag) write_data_world) (csw_passes (tag_after m) (omega arith)))

  pub write-IsUp : IsUp (reported (after_data_out lba n payload m))
  write-IsUp = record {
    has_room = in-HasRoom 13 (after_data_out lba n payload m) write_data-HasRoom;
    waits = ap (λ w. w.phase) write_status_world;
  }

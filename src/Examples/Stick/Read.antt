-- ===== src/Examples/Stick/Read.antt =====
-- A READ(10) of the component against the drive of Stick.
use bindkey_esp.Base.{
  ℕ, ◌*◌, ◌≡◌, refl, ap, ◌∙◌, arith, some, List, [], length, take, overwrite, replicate, ok,
}
use bindkey_esp.Base.Action.{Act}
use bindkey_esp.MassStorage.BlockDevice.Store.{sectors, InReach}
use bindkey_esp.MassStorage.Component.Sectors.{tag_after, tagged}
use bindkey_esp.Msc.Types.{St, ep_in, completed}
use bindkey_esp.Msc.Transfer.{msc_bulk_transfer}
use bindkey_esp.Msc.Command.{command}
use bindkey_esp.Msc.Bot.{data_endpoint, bot_execute_command}
use bindkey_esp.Examples.Store.{held, length-sectors}
use bindkey_esp.Examples.Stick.{Stick, awaiting, reporting, sending, stick_host, good_csw, HasRoom}
use bindkey_esp.Examples.Stick.Stages.{
  transfer_out, transfer_in, out-HasRoom, in-HasRoom, command_world, sending_world, reporting_world,
  overwrite-whole, csw_passes,
}
use bindkey_esp.Examples.Stick.Drive.{
  frame_of, three_stages, read_for, begun, after_data_in, reported, IsUp, tagged-HasRoom,
  length-read_frame, read_decodes, status_stage,
}

-- The stages of a READ(10).
module _ (m : St Stick) (lba n : ℕ) (up : IsUp m) (r : InReach 2 8192 lba n) where
  read_begun_world : (begun (read_for m lba n) m).world ≡ record m.world {
    phase = sending lba n;
    tag = tag_after m;
    last = record { status = completed; actual_num_bytes = 31; received = [] };
  }
  read_begun_world =
      command_world (frame_of (read_for m lba n)) (tagged m) (tagged-HasRoom m up.has_room) up.waits
        (length-read_frame m lba n) (read_decodes m lba n r)

  read_begun-HasRoom : HasRoom (begun (read_for m lba n) m)
  read_begun-HasRoom =
      out-HasRoom (frame_of (read_for m lba n)) 31 (tagged m) (tagged-HasRoom m up.has_room)

  read_data_world : (after_data_in lba n m).world ≡ record m.world {
    phase = reporting;
    tag = tag_after m;
    last = record {
      status = completed;
      actual_num_bytes = n * 2;
      received = sectors (held m.world.disk) lba n;
    };
  }
  read_data_world =
      sending_world (begun (read_for m lba n) m) (n * 2) (ap (λ w. w.phase) read_begun_world)
      ∙ ap {A = Stick}
          (λ w. record w {
            phase = reporting;
            last = record {
              status = completed;
              actual_num_bytes = n * 2;
              received = sectors (held w.disk) lba n;
            };
          })
          read_begun_world

  read_data_stage :
      (buffer : List ℕ)
      → length buffer ≡ n * 2
      → msc_bulk_transfer stick_host 7 buffer (n * 2) ep_in (begun (read_for m lba n) m)
        ≡ some (ok (sectors (held m.world.disk) lba n), after_data_in lba n m)
  read_data_stage buffer count =
      transfer_in buffer (n * 2) (begun (read_for m lba n) m) read_begun-HasRoom
        (omega (arith, r.on_drive))
        (omega (arith, count, ap (λ w. w.last.actual_num_bytes) read_data_world))
      ∙ ap
          (λ w. some (
            ok (overwrite 0 (take w.last.actual_num_bytes w.last.received) buffer),
            after_data_in lba n m,
          ))
          read_data_world
      ∙ ap (λ out. some (ok out, after_data_in lba n m))
          (overwrite-whole (sectors (held m.world.disk) lba n) buffer (n * 2)
            (length-sectors m.world.disk lba n) count)

  read_phase : (after_data_in lba n m).world.phase ≡ reporting
  read_phase = ap (λ w. w.phase) read_data_world

  pub read_status_world : (reported (after_data_in lba n m)).world ≡ record m.world {
    tag = tag_after m;
    phase = awaiting;
    last = record { status = completed; actual_num_bytes = 13; received = good_csw (tag_after m) };
  }
  read_status_world =
      reporting_world (after_data_in lba n m) 13 read_phase
      ∙ ap {A = Stick}
          (λ w. record w {
            phase = awaiting;
            last = record { status = completed; actual_num_bytes = 13; received = good_csw w.tag };
          })
          read_data_world

  pub read_exchange :
      (recover : ℕ → Act (St Stick) (Unit {0})) (buffer : List ℕ)
      → length buffer ≡ n * 2
      → bot_execute_command stick_host recover 7 (read_for m lba n) (some buffer) (n * 2) (tagged m)
        ≡ some (ok (ok tt, sectors (held m.world.disk) lba n), reported (after_data_in lba n m))
  unfolding command data_endpoint
  read_exchange recover buffer count =
      three_stages recover (read_for m lba n) ep_in buffer (sectors (held m.world.disk) lba n)
        (overwrite 0 (take 13 (good_csw (after_data_in lba n m).world.tag)) (replicate 13 0))
        (n * 2) (tagged m) (begun (read_for m lba n) m) (after_data_in lba n m)
        (reported (after_data_in lba n m)) refl
        (transfer_out (frame_of (read_for m lba n)) 31 (tagged m) (tagged-HasRoom m up.has_room)
          (omega arith) (omega (arith, length-read_frame m lba n)))
        (read_data_stage buffer count)
        (status_stage (after_data_in lba n m)
          (in-HasRoom (n * 2) (begun (read_for m lba n) m) read_begun-HasRoom) read_phase)
        (rw (ap (λ w. w.tag) read_data_world) (csw_passes (tag_after m) (omega arith)))

  pub read-IsUp : IsUp (reported (after_data_in lba n m))
  read-IsUp = record {
    has_room =
        in-HasRoom 13 (after_data_in lba n m)
          (in-HasRoom (n * 2) (begun (read_for m lba n) m) read_begun-HasRoom);
    waits = ap (λ w. w.phase) read_status_world;
  }

-- ===== src/Examples/Stick/Probe.antt =====
-- TEST UNIT READY and READ CAPACITY of the component against the drive of Stick.
use bindkey_esp.Base.{
  ℕ, ◌≡◌, refl, ap, ◌∙◌, arith, none, some, List, [], ◌∷◌, length, take, overwrite, replicate, ok,
}
use bindkey_esp.Base.Words.{u32_at, bswap32}
use bindkey_esp.Base.Action.{Act}
use bindkey_esp.MassStorage.Component.Sectors.{tag_after, tagged}
use bindkey_esp.Msc.Types.{St, ep_out, ep_in, completed}
use bindkey_esp.Msc.Transfer.{msc_bulk_transfer}
use bindkey_esp.Msc.Command.{
  Command, command, command_bytes, unit_ready_block, read_capacity_block, dir_in, check_csw,
  read_csw,
}
use bindkey_esp.Msc.Command.Wire.{Decodes10}
use bindkey_esp.Msc.Bot.{data_endpoint, bot_execute_command}
use bindkey_esp.Msc.Scsi.{
  execute, after_command, check_sense, scsi_cmd_unit_ready, scsi_cmd_read_capacity,
  msc_host_reset_recovery,
}
use bindkey_esp.Examples.Stick.{
  Stick, awaiting, reporting, telling, stick_host, good_csw, HasRoom, submitted, in_xfer,
}
use bindkey_esp.Examples.Stick.Stages.{
  transfer_out, transfer_in, out-HasRoom, in-HasRoom, command_world, telling_world, reporting_world,
  csw_passes,
}
use bindkey_esp.Examples.Stick.Drive.{
  frame_of, three_stages, begun, reported, IsUp, tagged-HasRoom, status_stage,
}

-- A command without data.
two_stages :
    (recover : ℕ → Act (St Stick) (Unit {0})) (c : Command) (csw : List ℕ) (m₀ m₁ m₂ : St Stick)
    → msc_bulk_transfer stick_host 7 (frame_of c) 31 ep_out m₀ ≡ some (ok (frame_of c), m₁)
    → msc_bulk_transfer stick_host 7 (replicate 13 0) 13 ep_in m₁ ≡ some (ok csw, m₂)
    → check_csw (read_csw csw) c.base.tag ≡ ok tt
    → bot_execute_command stick_host recover 7 c none 0 m₀ ≡ some (ok (ok tt, []), m₂)
unfolding bot_execute_command
two_stages recover c csw m₀ m₁ m₂ sent reported passes = rw sent (rw reported (rw passes refl))

abbrev ready_for : St Stick → Command
ready_for m = command dir_in (tag_after m) 0 unit_ready_block

abbrev capacity_for : St Stick → Command
capacity_for m = command dir_in (tag_after m) 8 read_capacity_block

ready_decodes : (m : St Stick) → Decodes10 (frame_of (ready_for m)) (tag_after m) 0 dir_in 0 0 0
unfolding command_bytes command u32_at
ready_decodes m = record {
  signature = refl;
  tag_at = omega arith;
  length_at = refl;
  flags_at = refl;
  lun_at = refl;
  opcode_at = refl;
  address_at = refl;
  count_at = refl;
}

capacity_decodes :
    (m : St Stick) → Decodes10 (frame_of (capacity_for m)) (tag_after m) 8 dir_in 0x25 0 0
unfolding command_bytes command u32_at
capacity_decodes m = record {
  signature = refl;
  tag_at = omega arith;
  length_at = refl;
  flags_at = refl;
  lun_at = refl;
  opcode_at = refl;
  address_at = refl;
  count_at = refl;
}

length-ready_frame : (m : St Stick) → length (frame_of (ready_for m)) ≡ 31
unfolding command_bytes command
length-ready_frame m = refl

length-capacity_frame : (m : St Stick) → length (frame_of (capacity_for m)) ≡ 31
unfolding command_bytes command
length-capacity_frame m = refl

abbrev pub after_ready : St Stick → St Stick
after_ready m = reported (begun (ready_for m) m)

abbrev told : St Stick → St Stick
told m = submitted (in_xfer 8 (begun (capacity_for m) m)) (begun (capacity_for m) m)

abbrev pub after_told : St Stick → St Stick
after_told m = reported (told m)

module _ (depth : ℕ) (m : St Stick) (up : IsUp m) where
  ready_world : (begun (ready_for m) m).world ≡ record m.world {
    phase = reporting;
    tag = tag_after m;
    last = record { status = completed; actual_num_bytes = 31; received = [] };
  }
  ready_world =
      command_world (frame_of (ready_for m)) (tagged m) (tagged-HasRoom m up.has_room) up.waits
        (length-ready_frame m) (ready_decodes m)

  ready-HasRoom : HasRoom (begun (ready_for m) m)
  ready-HasRoom = out-HasRoom (frame_of (ready_for m)) 31 (tagged m) (tagged-HasRoom m up.has_room)

  pub after_ready_world : (after_ready m).world ≡ record m.world {
    tag = tag_after m;
    phase = awaiting;
    last = record { status = completed; actual_num_bytes = 13; received = good_csw (tag_after m) };
  }
  after_ready_world =
      reporting_world (begun (ready_for m) m) 13 (ap (λ w. w.phase) ready_world)
      ∙ ap {A = Stick}
          (λ w. record w {
            phase = awaiting;
            last = record { status = completed; actual_num_bytes = 13; received = good_csw w.tag };
          })
          ready_world

  pub scsi_cmd_unit_ready-up :
      scsi_cmd_unit_ready stick_host (msc_host_reset_recovery stick_host depth) 7 m
      ≡ some (ok (ok tt), after_ready m)
  unfolding scsi_cmd_unit_ready execute after_command
  scsi_cmd_unit_ready-up =
      rw
        (two_stages (msc_host_reset_recovery stick_host depth) (ready_for m)
          (overwrite 0 (take 13 (good_csw (begun (ready_for m) m).world.tag)) (replicate 13 0))
          (tagged m) (begun (ready_for m) m) (after_ready m)
          (transfer_out (frame_of (ready_for m)) 31 (tagged m) (tagged-HasRoom m up.has_room)
            (omega arith) (omega (arith, length-ready_frame m)))
          (status_stage (begun (ready_for m) m) ready-HasRoom (ap (λ w. w.phase) ready_world))
          (passes (ap (λ w. w.tag) ready_world)))
        refl
    where
      passes :
          {t : ℕ}
          → t ≡ tag_after m
          → check_csw (read_csw (overwrite 0 (take 13 (good_csw t)) (replicate 13 0))) (tag_after m)
            ≡ ok tt
      passes e = rw e (csw_passes (tag_after m) (omega arith))

  pub ready-IsUp : IsUp (after_ready m)
  ready-IsUp = record {
    has_room = in-HasRoom 13 (begun (ready_for m) m) ready-HasRoom;
    waits = ap (λ w. w.phase) after_ready_world;
  }

  capacity_world : (begun (capacity_for m) m).world ≡ record m.world {
    phase = telling;
    tag = tag_after m;
    last = record { status = completed; actual_num_bytes = 31; received = [] };
  }
  capacity_world =
      command_world (frame_of (capacity_for m)) (tagged m) (tagged-HasRoom m up.has_room) up.waits
        (length-capacity_frame m) (capacity_decodes m)

  capacity-HasRoom : HasRoom (begun (capacity_for m) m)
  capacity-HasRoom =
      out-HasRoom (frame_of (capacity_for m)) 31 (tagged m) (tagged-HasRoom m up.has_room)

  told_world : (told m).world ≡ record m.world {
    phase = reporting;
    tag = tag_after m;
    last = record {
      status = completed;
      actual_num_bytes = 8;
      received = 0 ∷ 0 ∷ 32 ∷ 0 ∷ 0 ∷ 0 ∷ 0 ∷ 2 ∷ [];
    };
  }
  told_world =
      telling_world (begun (capacity_for m) m) 8 (ap (λ w. w.phase) capacity_world)
      ∙ ap {A = Stick}
          (λ w. record w {
            phase = reporting;
            last = record {
              status = completed;
              actual_num_bytes = 8;
              received = 0 ∷ 0 ∷ 32 ∷ 0 ∷ 0 ∷ 0 ∷ 0 ∷ 2 ∷ [];
            };
          })
          capacity_world

  told_stage :
      msc_bulk_transfer stick_host 7 (replicate 8 0) 8 ep_in (begun (capacity_for m) m)
      ≡ some (ok (0 ∷ 0 ∷ 32 ∷ 0 ∷ 0 ∷ 0 ∷ 0 ∷ 2 ∷ []), told m)
  unfolding overwrite
  told_stage =
      transfer_in (replicate 8 0) 8 (begun (capacity_for m) m) capacity-HasRoom (omega arith)
        (omega (arith, ap (λ w. w.last.actual_num_bytes) told_world))
      ∙ ap
          (λ w. some (
            ok (overwrite 0 (take w.last.actual_num_bytes w.last.received) (replicate 8 0)),
            told m,
          ))
          told_world

  pub after_told_world : (after_told m).world ≡ record m.world {
    tag = tag_after m;
    phase = awaiting;
    last = record { status = completed; actual_num_bytes = 13; received = good_csw (tag_after m) };
  }
  after_told_world =
      reporting_world (told m) 13 (ap (λ w. w.phase) told_world)
      ∙ ap {A = Stick}
          (λ w. record w {
            phase = awaiting;
            last = record { status = completed; actual_num_bytes = 13; received = good_csw w.tag };
          })
          told_world

  told-HasRoom : HasRoom (told m)
  told-HasRoom = in-HasRoom 8 (begun (capacity_for m) m) capacity-HasRoom

  capacity_exchange :
      bot_execute_command stick_host
        (msc_host_reset_recovery stick_host depth)
        7
        (capacity_for m)
        (some (replicate 8 0))
        8
        (tagged m)
      ≡ some (ok (ok tt, 0 ∷ 0 ∷ 32 ∷ 0 ∷ 0 ∷ 0 ∷ 0 ∷ 2 ∷ []), after_told m)
  unfolding command data_endpoint
  capacity_exchange =
      three_stages (msc_host_reset_recovery stick_host depth) (capacity_for m) ep_in (replicate 8 0)
        (0 ∷ 0 ∷ 32 ∷ 0 ∷ 0 ∷ 0 ∷ 0 ∷ 2 ∷ [])
        (overwrite 0 (take 13 (good_csw (told m).world.tag)) (replicate 13 0)) 8 (tagged m)
        (begun (capacity_for m) m) (told m) (after_told m) refl
        (transfer_out (frame_of (capacity_for m)) 31 (tagged m) (tagged-HasRoom m up.has_room)
          (omega arith) (omega (arith, length-capacity_frame m)))
        told_stage (status_stage (told m) told-HasRoom (ap (λ w. w.phase) told_world))
        (rw (ap (λ w. w.tag) told_world) (csw_passes (tag_after m) (omega arith)))

  pub scsi_cmd_read_capacity-up :
      scsi_cmd_read_capacity stick_host (msc_host_reset_recovery stick_host depth) 7 m
      ≡ some (ok (ok tt, some (2, 8192)), after_told m)
  unfolding scsi_cmd_read_capacity execute check_sense u32_at bswap32
  scsi_cmd_read_capacity-up = rw capacity_exchange refl

  pub told-IsUp : IsUp (after_told m)
  told-IsUp = record {
    has_room = in-HasRoom 13 (told m) told-HasRoom;
    waits = ap (λ w. w.phase) after_told_world;
  }

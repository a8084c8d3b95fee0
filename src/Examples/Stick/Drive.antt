-- ===== src/Examples/Stick/Drive.antt =====
-- The commands of the component against the drive of Stick.
use bindkey_esp.Base.{
  ℕ, ◌*◌, ◌-◌, ◌≡◌, refl, ap, ◌∙◌, arith, some, List, ◌++◌, length, take, overwrite, replicate, ok,
}
use bindkey_esp.Base.Action.{Act}
use bindkey_esp.MassStorage.BlockDevice.Store.{InReach}
use bindkey_esp.MassStorage.Component.Sectors.{tag_after, tagged}
use bindkey_esp.Msc.Types.{St, MscEndpoint, ep_out, ep_in}
use bindkey_esp.Msc.Transfer.{msc_bulk_transfer}
use bindkey_esp.Msc.Command.{
  Command, command, command_bytes, read10_block, write10_block, dir_in, dir_out, check_csw,
  read_csw,
}
use bindkey_esp.Msc.Command.Wire.{Decodes10, read10-Decodes10, write10-Decodes10}
use bindkey_esp.Msc.Bot.{data_endpoint, bot_execute_command}
use bindkey_esp.Examples.Stick.{
  Stick, awaiting, reporting, stick_host, good_csw, HasRoom, submitted, out_xfer, in_xfer,
}
use bindkey_esp.Examples.Stick.Stages.{transfer_in, reporting_world}

-- The 31 bytes that go out for a command.
abbrev pub frame_of : Command → List ℕ
frame_of c = take 31 (command_bytes c ++ replicate (31 - length (command_bytes c)) 0)

-- The three stages of a command that succeeds.
pub three_stages :
    (recover : ℕ → Act (St Stick) (Unit {0})) (c : Command) (ep : MscEndpoint)
    (payload out csw : List ℕ) (size : ℕ) (m₀ m₁ m₂ m₃ : St Stick)
    → data_endpoint c.base ≡ ep
    → msc_bulk_transfer stick_host 7 (frame_of c) 31 ep_out m₀ ≡ some (ok (frame_of c), m₁)
    → msc_bulk_transfer stick_host 7 payload size ep m₁ ≡ some (ok out, m₂)
    → msc_bulk_transfer stick_host 7 (replicate 13 0) 13 ep_in m₂ ≡ some (ok csw, m₃)
    → check_csw (read_csw csw) c.base.tag ≡ ok tt
    → bot_execute_command stick_host recover 7 c (some payload) size m₀ ≡ some (ok (ok tt, out), m₃)
unfolding bot_execute_command
three_stages recover c ep payload out csw size m₀ m₁ m₂ m₃ way sent moved reported passes =
    rw sent (rw way (rw moved (rw reported (rw passes refl))))

abbrev pub read_for : St Stick → (lba n : ℕ) → Command
read_for m lba n = command dir_in (tag_after m) (n * 2) (read10_block lba n)

abbrev pub write_for : St Stick → (lba n : ℕ) → Command
write_for m lba n = command dir_out (tag_after m) (n * 2) (write10_block lba n)

-- The memory behind a command's block, behind its data, and behind its status.
abbrev pub begun : Command → St Stick → St Stick
begun c m = submitted (out_xfer (frame_of c) 31 (tagged m)) (tagged m)

abbrev pub after_data_in : (lba n : ℕ) → St Stick → St Stick
after_data_in lba n m =
    submitted (in_xfer (n * 2) (begun (read_for m lba n) m)) (begun (read_for m lba n) m)

abbrev pub after_data_out : (lba n : ℕ) → List ℕ → St Stick → St Stick
after_data_out lba n payload m =
    submitted (out_xfer payload (n * 2) (begun (write_for m lba n) m)) (begun (write_for m lba n) m)

abbrev pub reported : St Stick → St Stick
reported m = submitted (in_xfer 13 m) m

-- The device is open with room for its data, and the drive waits for a command.
pub record IsUp (m : St Stick) : Type 0 where
  pub has_room : HasRoom m
  pub waits : m.world.phase ≡ awaiting

pub tagged-HasRoom : (m : St Stick) → HasRoom m → HasRoom (tagged m)
tagged-HasRoom m p = record {
  there = p.there;
  allocated = p.allocated;
  room = p.room;
  sized = p.sized;
}

pub length-read_frame : (m : St Stick) (lba n : ℕ) → length (frame_of (read_for m lba n)) ≡ 31
unfolding command_bytes command read10_block
length-read_frame m lba n = refl

pub length-write_frame : (m : St Stick) (lba n : ℕ) → length (frame_of (write_for m lba n)) ≡ 31
unfolding command_bytes command write10_block
length-write_frame m lba n = refl

pub read_decodes :
    (m : St Stick) (lba n : ℕ)
    → InReach 2 8192 lba n
    → Decodes10 (frame_of (read_for m lba n)) (tag_after m) (n * 2) dir_in 0x28 lba n
unfolding command_bytes command read10_block
read_decodes m lba n r =
    read10-Decodes10 (tag_after m) lba n 2 (replicate 4 0) (omega arith) (omega (arith, r.on_drive))
      r.few r.addressable

pub write_decodes :
    (m : St Stick) (lba n : ℕ)
    → InReach 2 8192 lba n
    → Decodes10 (frame_of (write_for m lba n)) (tag_after m) (n * 2) dir_out 0x2A lba n
unfolding command_bytes command write10_block
write_decodes m lba n r =
    write10-Decodes10 (tag_after m) lba n 2 (replicate 6 0) (omega arith)
      (omega (arith, r.on_drive)) r.few r.addressable

-- A status that passes.
pub status_stage :
    (m : St Stick)
    → HasRoom m
    → m.world.phase ≡ reporting
    → msc_bulk_transfer stick_host 7 (replicate 13 0) 13 ep_in m
      ≡ some (ok (overwrite 0 (take 13 (good_csw m.world.tag)) (replicate 13 0)), reported m)
status_stage m p e =
    transfer_in (replicate 13 0) 13 m p (omega arith)
      (omega (arith, ap (λ w. w.last.actual_num_bytes) (reporting_world m 13 e)))
    ∙ ap
        (λ w. some (
          ok (overwrite 0 (take w.last.actual_num_bytes w.last.received) (replicate 13 0)),
          reported m,
        ))
        (reporting_world m 13 e)

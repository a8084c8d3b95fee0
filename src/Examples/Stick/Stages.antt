-- ===== src/Examples/Stick/Stages.antt =====
-- The transfers of the component with the drive of Stick, and the drive behind each of them.
use bindkey_esp.Base.{
  ℕ, ◌*◌, ◌^◌, ◌<◌, ◌≤◌, ◌≡◌, refl, sym, ap, ◌∙◌, arith, some, List, [], ◌∷◌, length, take,
  overwrite, replicate, ok, take-overwrite_front, length-overwrite, take-length,
}
use bindkey_esp.Base.Words.{u32_at, u32_le}
use bindkey_esp.MassStorage.BlockDevice.Store.{sectors, stored}
use bindkey_esp.Msc.Types.{St, Xfer, ep_out, ep_in}
use bindkey_esp.Msc.Transfer.{msc_bulk_transfer}
use bindkey_esp.Msc.Command.{check_csw, read_csw}
use bindkey_esp.Msc.Command.Wire.{Decodes10}
use bindkey_esp.Examples.Store.{held}
use bindkey_esp.Examples.Stick.{
  Stick, done, begin, good_csw, stick_host, xfer_in, HasRoom, submitted, out_xfer, in_xfer,
  awaiting, reporting, telling, sending, storing, step-completed,
}

pub transfer_out :
    (payload : List ℕ) (size : ℕ) (m : St Stick)
    → HasRoom m
    → size ≤ 16384
    → size ≤ length payload
    → msc_bulk_transfer stick_host 7 payload size ep_out m
      ≡ some (ok payload, submitted (out_xfer payload size m) m)
unfolding msc_bulk_transfer
transfer_out payload size m p small sized =
    rw (p.there, p.allocated)
      (ground (arith, p.room, step-completed m.world.phase (out_xfer payload size m) m.world))

pub transfer_in :
    (payload : List ℕ) (size : ℕ) (m : St Stick)
    → HasRoom m
    → size ≤ 16384
    → (submitted (in_xfer size m) m).world.last.actual_num_bytes ≤ length payload
    → msc_bulk_transfer stick_host 7 payload size ep_in m
      ≡ some (
        ok (
            overwrite 0
              (take
                (submitted (in_xfer size m) m).world.last.actual_num_bytes
                (submitted (in_xfer size m) m).world.last.received)
              payload),
        submitted (in_xfer size m) m,
      )
unfolding msc_bulk_transfer
transfer_in payload size m p small fits =
    rw (p.there, p.allocated)
      (ground (arith, p.room, step-completed m.world.phase (in_xfer size m) m.world))

pub submitted-HasRoom :
    (x : Xfer) (m : St Stick)
    → x.data_buffer_size ≡ 16384
    → length x.data_buffer ≡ 16384
    → HasRoom (submitted x m)
submitted-HasRoom x m room sized = record {
  there = refl;
  allocated = refl;
  room = room;
  sized = sized;
}

pub out-HasRoom :
    (payload : List ℕ) (size : ℕ) (m : St Stick)
    → HasRoom m
    → HasRoom (submitted (out_xfer payload size m) m)
out-HasRoom payload size m p =
    submitted-HasRoom (out_xfer payload size m) m p.room
      (length-overwrite 0 (take size payload) (xfer_in m).data_buffer ∙ p.sized)

pub in-HasRoom : (size : ℕ) (m : St Stick) → HasRoom m → HasRoom (submitted (in_xfer size m) m)
in-HasRoom size m p = submitted-HasRoom (in_xfer size m) m p.room p.sized

-- The bytes that an OUT transfer carries.
pub carried :
    (payload : List ℕ) (size : ℕ) (m : St Stick)
    → HasRoom m
    → length payload ≡ size
    → size ≤ 16384
    → take size (out_xfer payload size m).data_buffer ≡ payload
carried payload size m p count small =
    ap (λ bytes. take size (overwrite 0 bytes (xfer_in m).data_buffer))
      (take-length payload size (sym count))
    ∙ take-overwrite_front size payload (xfer_in m).data_buffer (sym count)
        (omega (arith, p.sized, small))

-- The world behind each of the stages.
pub command_world :
    (frame : List ℕ) (m : St Stick) {tag bytes flags opcode lba n : ℕ}
    → HasRoom m
    → m.world.phase ≡ awaiting
    → length frame ≡ 31
    → Decodes10 frame tag bytes flags opcode lba n
    → (submitted (out_xfer frame 31 m) m).world
      ≡ record m.world { phase = begin opcode lba n; tag = tag; last = done [] 31 }
command_world frame m p waits count d = rw waits (
    rw (carried frame 31 m p count (omega arith))
      (rw (d.tag_at, d.opcode_at, d.address_at, d.count_at) refl))

pub telling_world :
    (m : St Stick) (size : ℕ)
    → m.world.phase ≡ telling
    → (submitted (in_xfer size m) m).world
      ≡ record m.world { phase = reporting; last = done (0 ∷ 0 ∷ 32 ∷ 0 ∷ 0 ∷ 0 ∷ 0 ∷ 2 ∷ []) 8 }
telling_world m size e = rw e refl

pub sending_world :
    (m : St Stick) (size : ℕ) {lba n : ℕ}
    → m.world.phase ≡ sending lba n
    → (submitted (in_xfer size m) m).world ≡ record m.world {
      phase = reporting;
      last = done (sectors (held m.world.disk) lba n) (n * 2);
    }
sending_world m size e = rw e refl

pub storing_world :
    (payload : List ℕ) (m : St Stick) (size : ℕ) {lba n : ℕ}
    → HasRoom m
    → length payload ≡ size
    → size ≤ 16384
    → m.world.phase ≡ storing lba n
    → (submitted (out_xfer payload size m) m).world ≡ record m.world {
      disk = stored 2 lba n payload m.world.disk;
      phase = reporting;
      last = done [] (n * 2);
    }
storing_world payload m size p count small e = rw e (rw (carried payload size m p count small) refl)

pub reporting_world :
    (m : St Stick) (size : ℕ)
    → m.world.phase ≡ reporting
    → (submitted (in_xfer size m) m).world
      ≡ record m.world { phase = awaiting; last = done (good_csw m.world.tag) 13 }
reporting_world m size e = rw e refl

pub overwrite-whole :
    (src buf : List ℕ) (n : ℕ)
    → length src ≡ n
    → length buf ≡ n
    → overwrite 0 (take n src) buf ≡ src
overwrite-whole src buf n e h =
    ap (λ bytes. overwrite 0 bytes buf) (take-length src n (sym e))
    ∙ sym (take-length (overwrite 0 src buf) n (sym (length-overwrite 0 src buf ∙ h)))
    ∙ take-overwrite_front n src buf (sym e) (omega (arith, h))

pub csw_passes :
    (tag : ℕ)
    → tag < 2 ^ 32
    → check_csw (read_csw (overwrite 0 (take 13 (good_csw tag)) (replicate 13 0))) tag ≡ ok tt
unfolding check_csw read_csw overwrite u32_le u32_at
csw_passes tag fits = ground (arith, fits)

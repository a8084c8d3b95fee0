-- ===== src/Msc/Command/Wire.antt =====
-- The commands on the wire (src/usb_mass_storage/usb_host_msc/src/msc_scsi_bot.c), read back as the
-- tables of the Bulk-Only Transport and of SCSI lay them out.
use bindkey_esp.Base.{ℕ, ◌+◌, ◌*◌, ◌^◌, ◌<◌, ◌≡◌, refl, ◌↔◌, List, ◌++◌, arith, get_or, ok}
use bindkey_esp.Base.Words.{u32_at}
use bindkey_esp.Msc.Command.{
  command, command_bytes, read10_block, write10_block, Csw, check_csw, csw_signature, cbw_signature,
  dir_in, dir_out,
}

-- A big-endian word of a frame, as SCSI has them.
abbrev pub be32_at : ℕ → List ℕ → ℕ
be32_at i buf =
    get_or buf i 0 * 16777216
    + get_or buf (i + 1) 0 * 65536
    + get_or buf (i + 2) 0 * 256
    + get_or buf (i + 3) 0

abbrev pub be16_at : ℕ → List ℕ → ℕ
be16_at i buf = get_or buf i 0 * 256 + get_or buf (i + 1) 0

-- What a device reads out of a 10-byte read or write command, behind the table positions of the
-- wrapper (signature, tag, transfer length, flags, LUN) and of the block (opcode, address, count).
pub record Decodes10 (frame : List ℕ) (tag data_length flags opcode address count : ℕ)
    : Type 0 where
  pub signature : u32_at 0 frame ≡ cbw_signature
  pub tag_at : u32_at 4 frame ≡ tag
  pub length_at : u32_at 8 frame ≡ data_length
  pub flags_at : get_or frame 12 0 ≡ flags
  pub lun_at : get_or frame 13 0 ≡ 0
  pub opcode_at : get_or frame 15 0 ≡ opcode
  pub address_at : be32_at 17 frame ≡ address
  pub count_at : be16_at 22 frame ≡ count

module _ (tag lba n size : ℕ) (rest : List ℕ) (tag_fits : tag < 2 ^ 32) (lba_fits : lba < 2 ^ 32)
    (n_fits : n < 2 ^ 16) (bytes_fit : n * size < 2 ^ 32) where
  -- A READ(10) frame decodes, by the tables of the standards, to exactly the sectors and the byte
  -- count that the call asked for, whatever bytes follow the struct; the sector address and the tag
  -- fit 32 bits, the sector count 16, and the byte count 32.
  pub read10-Decodes10 :
      Decodes10
        (command_bytes (command dir_in tag (n * size) (read10_block lba n)) ++ rest)
        tag
        (n * size)
        dir_in
        0x28
        lba
        n
  unfolding u32_at command_bytes command read10_block
  read10-Decodes10 = record {
    signature = refl;
    tag_at = omega arith;
    length_at = omega arith;
    flags_at = refl;
    lun_at = refl;
    opcode_at = refl;
    address_at = omega arith;
    count_at = omega arith;
  }

  -- A WRITE(10) frame decodes, by the tables of the standards, to exactly the sectors and the byte
  -- count that the call asked for, whatever bytes follow the struct; the sector address and the tag
  -- fit 32 bits, the sector count 16, and the byte count 32.
  pub write10-Decodes10 :
      Decodes10
        (command_bytes (command dir_out tag (n * size) (write10_block lba n)) ++ rest)
        tag
        (n * size)
        dir_out
        0x2A
        lba
        n
  unfolding u32_at command_bytes command write10_block
  write10-Decodes10 = record {
    signature = refl;
    tag_at = omega arith;
    length_at = omega arith;
    flags_at = refl;
    lun_at = refl;
    opcode_at = refl;
    address_at = omega arith;
    count_at = omega arith;
  }

-- The status wrapper is accepted exactly when its signature is right, its tag is that of the
-- command, nothing was left over and the device reports success.
check_csw_iff :
    (csw : Csw) (tag : ℕ)
    → (check_csw csw tag ≡ ok tt) ↔ (
        (csw.signature ≡ csw_signature)
        × (csw.tag ≡ tag)
        × (csw.data_residue ≡ 0)
        × (csw.status ≡ 0))
unfolding check_csw
check_csw_iff csw tag = ground arith

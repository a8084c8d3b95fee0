-- ===== src/Msc/Command.antt =====
-- The packed structs of src/usb_mass_storage/usb_host_msc/src/msc_scsi_bot.c: the command block
-- wrapper, one command block for each SCSI command, the status wrapper and the responses.
pub mod Wire
use bindkey_esp.Base.{
  ℕ, ◌+◌, ◌*◌, ◌%◌, ◌^◌, Bool, ◌&&◌, List, [], ◌∷◌, ◌++◌, ◌==◌, if◌then◌else◌, length, replicate,
  get_or, ok, err, fail, Status,
}
use bindkey_esp.Base.Words.{u16_le, u32_le, u32_at, bswap16, bswap32}

-- `CWB_FLAG_DIRECTION_IN`; the OUT direction is 0.
abbrev pub dir_in : ℕ
dir_in = 128

abbrev pub dir_out : ℕ
dir_out = 0

abbrev pub cbw_signature : ℕ
cbw_signature = 0x4342_5355

abbrev pub csw_signature : ℕ
csw_signature = 0x5342_5355

abbrev pub cbw_size : ℕ
cbw_size = 31

abbrev pub csw_size : ℕ
csw_size = 13

-- `msc_cbw_t`
pub record Cbw : Type 0 where
  pub signature : ℕ
  pub tag : ℕ
  pub data_length : ℕ
  pub flags : ℕ
  pub lun : ℕ
  pub cbw_length : ℕ

-- A command: its wrapper and the bytes of the fields behind it, from the opcode on.
pub record Command : Type 0 where
  pub base : Cbw
  pub block : List ℕ

-- `CBW_BASE_INIT`, with `CBW_CMD_SIZE` as the length of the block.
unfoldable pub command : (dir tag data_length : ℕ) → List ℕ → Command
command dir tag data_length block = record {
  base = record {
    signature = cbw_signature;
    tag = tag;
    data_length = data_length % 2 ^ 32;
    flags = dir;
    lun = 0;
    cbw_length = length block % 2 ^ 8;
  };
  block = block;
}

unfoldable pub command_bytes : Command → List ℕ
unfolding u32_le
command_bytes c =
    u32_le c.base.signature
    ++ (u32_le c.base.tag
        ++ (u32_le c.base.data_length ++ (c.base.flags ∷ c.base.lun ∷ c.base.cbw_length ∷ c.block)))

-- `cbw_read10_t`
unfoldable pub read10_block : (sector_address num_sectors : ℕ) → List ℕ
unfolding u16_le u32_le bswap16 bswap32
read10_block sector_address num_sectors =
    0x28 ∷ 0 ∷ u32_le (bswap32 sector_address)
    ++ (0 ∷ u16_le (bswap16 num_sectors) ++ (0 ∷ 0 ∷ 0 ∷ []))

-- `cbw_write10_t`
unfoldable pub write10_block : (sector_address num_sectors : ℕ) → List ℕ
unfolding u16_le u32_le bswap16 bswap32
write10_block sector_address num_sectors =
    0x2A ∷ 0 ∷ u32_le (bswap32 sector_address) ++ (0 ∷ u16_le (bswap16 num_sectors) ++ (0 ∷ []))

-- `cbw_read_capacity_t`
abbrev pub read_capacity_block : List ℕ
read_capacity_block = 0x25 ∷ 0 ∷ replicate 10 0

-- `cbw_unit_ready_t`
abbrev pub unit_ready_block : List ℕ
unit_ready_block = 0 ∷ 0 ∷ replicate 10 0

-- The size of `cbw_sense_response_t`.
abbrev pub sense_size : ℕ
sense_size = 18

-- `cbw_sense_t`
abbrev pub sense_block : List ℕ
sense_block = 0x03 ∷ 0 ∷ 0 ∷ 0 ∷ sense_size ∷ replicate 7 0

abbrev pub inquiry_size : ℕ
inquiry_size = 36

-- `cbw_inquiry_t`
abbrev pub inquiry_block : List ℕ
inquiry_block = 0x12 ∷ 0 ∷ 0 ∷ 0 ∷ inquiry_size ∷ replicate 7 0

abbrev pub mode_sense_size : ℕ
mode_sense_size = 8

-- `mode_sense_t`
unfoldable pub mode_sense_block : List ℕ
unfolding u16_le
mode_sense_block = 0x5A ∷ 0 ∷ 0x3F ∷ replicate 4 0 ++ (u16_le mode_sense_size ++ replicate 3 0)

-- `prevent_allow_medium_removal_t`
unfoldable pub prevent_removal_block : Bool → List ℕ
prevent_removal_block prevent = 0x1E ∷ 0 ∷ 0 ∷ 0 ∷ (if prevent then 1 else 0) ∷ replicate 7 0

-- `msc_csw_t`
pub record Csw : Type 0 where
  pub signature : ℕ
  pub tag : ℕ
  pub data_residue : ℕ
  pub status : ℕ

unfoldable pub read_csw : List ℕ → Csw
unfolding u32_at
read_csw bytes = record {
  signature = u32_at 0 bytes;
  tag = u32_at 4 bytes;
  data_residue = u32_at 8 bytes;
  status = get_or bytes 12 0;
}

unfoldable pub check_csw : Csw → ℕ → Status
check_csw csw tag =
    if csw.signature == csw_signature && csw.tag == tag && csw.data_residue == 0 && csw.status == 0
    then ok tt
    else err fail

-- `scsi_sense_data_t`
pub record Sense : Type 0 where
  pub key : ℕ
  pub code : ℕ
  pub code_q : ℕ

-- The three fields of `cbw_sense_response_t` that the driver reads.
unfoldable pub read_sense : List ℕ → Sense
read_sense bytes = record {
  key = get_or bytes 2 0;
  code = get_or bytes 12 0;
  code_q = get_or bytes 13 0;
}

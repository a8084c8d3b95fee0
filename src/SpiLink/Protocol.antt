-- ===== src/SpiLink/Protocol.antt =====
-- The frame format of src/spi_link/protocol.rs: the 16-byte header, the commands, and the payload
-- of a capacity response. Fields are `u8`, `u16` and `u32` values; the wire is little endian.
pub mod Laws
use bindkey_esp.Base.{
  ℕ, ◌+◌, ◌*◌, ◌/◌, ◌%◌, ◌^◌, bit_and, bit_or, Bool, not, ◌&&◌, Option, none, some, List, [], ◌∷◌,
  ◌++◌, ◌==◌, if◌then◌else◌, get_or,
}
use bindkey_esp.Base.Words.{u16_le, u32_le, u16_at, u32_at}

-- `b"BK"`
abbrev pub magic_bytes : ℕ × ℕ
magic_bytes = (0x42, 0x4B)

abbrev pub version : ℕ
version = 1

abbrev pub resp_flag : ℕ
resp_flag = 0x80

abbrev pub max_payload : ℕ
max_payload = 8192

abbrev pub crc_len : ℕ
crc_len = 4

pub data Cmd : Type 0 where
  get_status get_capacity read write flush : Cmd

-- `cmd as u8`
unfoldable pub to_u8 : Cmd → ℕ
to_u8 get_status = 1
to_u8 get_capacity = 2
to_u8 read = 3
to_u8 write = 4
to_u8 flush = 5

unfoldable pub from_u8 : ℕ → Option Cmd
from_u8 v =
    if v == 1
    then some get_status
    else if v == 2
    then some get_capacity
    else if v == 3
    then some read
    else if v == 4
    then some write
    else if v == 5
    then some flush
    else none

pub record Header : Type 0 where
  pub magic : ℕ × ℕ
  pub ver : ℕ
  pub cmd : ℕ
  pub seq : ℕ
  pub reserved : ℕ
  pub arg0 : ℕ
  pub arg1 : ℕ

-- `Header::new`
unfoldable pub new_header : Cmd → ℕ → ℕ → ℕ → Header
unfolding to_u8
new_header cmd seq arg0 arg1 = record {
  magic = magic_bytes;
  ver = version;
  cmd = to_u8 cmd;
  seq = seq;
  reserved = 0;
  arg0 = arg0;
  arg1 = arg1;
}

unfoldable pub is_valid : Header → Bool
is_valid h = h.magic.0 == magic_bytes.0 && h.magic.1 == magic_bytes.1 && h.ver == version

unfoldable pub is_response : Header → Bool
is_response h = not (bit_and h.cmd resp_flag == 0)

-- `!RESP_FLAG` is 0x7F on a `u8`.
unfoldable pub cmd_base : Header → ℕ
cmd_base h = bit_and h.cmd 0x7F

unfoldable pub cmd_enum : Header → Option Cmd
unfolding from_u8 cmd_base
cmd_enum h = from_u8 (cmd_base h)

-- The status comes as the `u32` pattern of the `i32`.
unfoldable pub response_for : Header → ℕ → Header
unfolding cmd_base
response_for req status = record {
  magic = magic_bytes;
  ver = version;
  cmd = bit_or (cmd_base req) resp_flag;
  seq = req.seq;
  reserved = 0;
  arg0 = status;
  arg1 = 0;
}

-- The 16 bytes of the packed struct, as `from_raw_parts(&resp_hdr, HDR_LEN)` reads them.
unfoldable pub header_bytes : Header → List ℕ
unfolding u16_le u32_le
header_bytes h =
    h.magic.0 ∷ h.magic.1 ∷ h.ver ∷ h.cmd ∷ u16_le h.seq
    ++ (u16_le h.reserved ++ (u32_le h.arg0 ++ u32_le h.arg1))

-- `read_unaligned(rx_dma.as_ptr() as *const Header)`
unfoldable pub read_header : List ℕ → Header
unfolding u16_at u32_at
read_header buf = record {
  magic = (get_or buf 0 0, get_or buf 1 0);
  ver = get_or buf 2 0;
  cmd = get_or buf 3 0;
  seq = u16_at 4 buf;
  reserved = u16_at 6 buf;
  arg0 = u32_at 8 buf;
  arg1 = u32_at 12 buf;
}

unfoldable pub encode_capacity : ℕ → ℕ → List ℕ
unfolding u32_le
encode_capacity block_size block_count = u32_le block_size ++ u32_le block_count

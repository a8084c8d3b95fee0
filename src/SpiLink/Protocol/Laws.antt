-- ===== src/SpiLink/Protocol/Laws.antt =====
-- Round trips of the frame format (src/spi_link/protocol.rs), and what a response says of its
-- request.
use bindkey_esp.Base.{
  ℕ, zero, suc, ◌+◌, ◌%◌, ◌^◌, ◌<◌, bit_and, bit_or, ◌≡◌, refl, Bool, true, false, ◌&&◌, some, List,
  ◌++◌, arith, ◌==◌, ==_iff,
}
use bindkey_esp.Base.Words.{u32_at}
use bindkey_esp.SpiLink.Protocol.{
  Cmd, get_status, get_capacity, read, write, flush, Header, new_header, is_valid, is_response,
  cmd_base, cmd_enum, response_for, header_bytes, read_header, encode_capacity,
}

-- The fields are values of their machine types.
pub record InRange (h : Header) : Type 0 where
  pub magic0 : h.magic.0 < 256
  pub magic1 : h.magic.1 < 256
  pub ver : h.ver < 256
  pub cmd : h.cmd < 256
  pub seq : h.seq < 2 ^ 16
  pub reserved : h.reserved < 2 ^ 16
  pub arg0 : h.arg0 < 2 ^ 32
  pub arg1 : h.arg1 < 2 ^ 32

-- For a header whose fields fit their machine types, reading it back from the start of a frame
-- gives every field, whatever follows it.
pub read_header-header_bytes :
    (h : Header) (rest : List ℕ) → InRange h → read_header (header_bytes h ++ rest) ≡ h
unfolding read_header header_bytes
read_header-header_bytes h rest r = ground arith

-- Whether a test succeeds at the `n` values from 0 on.
passes : (ℕ → Bool) → ℕ → Bool
passes test zero = true
passes test (suc n) = passes test n && test n

passes_sound : (test : ℕ → Bool) (n : ℕ) → passes test n ≡ true → {x : ℕ} → x < n → test x ≡ true
unfolding passes
passes_sound test zero done {x} below = absurd (omega arith)
passes_sound test (suc n) done {x} below =
    ground (arith, λ (h : passes test n ≡ true) (k : x < n). passes_sound test n h {x = x} k)

-- On a byte, masking with 0x7F drops the response flag.
mask_table : passes (λ x. bit_and x 0x7F == x % 128) 256 ≡ true
unfolding passes
mask_table = refl

bit_and_mask : (x : ℕ) → x < 256 → bit_and x 0x7F ≡ x % 128
bit_and_mask x h = (==_iff _ _).0 (passes_sound (λ x. bit_and x 0x7F == x % 128) 256 mask_table h)

flag_table : passes (λ x. bit_or x 0x80 == x + 128) 128 ≡ true
unfolding passes
flag_table = refl

bit_or_flag : (x : ℕ) → x < 128 → bit_or x 0x80 ≡ x + 128
bit_or_flag x h = (==_iff _ _).0 (passes_sound (λ x. bit_or x 0x80 == x + 128) 128 flag_table h)

test_table : passes (λ x. bit_and (x + 128) 0x80 == 128) 128 ≡ true
unfolding passes
test_table = refl

bit_and_flag : (x : ℕ) → x < 128 → bit_and (x + 128) 0x80 ≡ 128
bit_and_flag x h =
    (==_iff _ _).0 (passes_sound (λ x. bit_and (x + 128) 0x80 == 128) 128 test_table h)

-- The response to a request whose command is a byte is a valid frame, is marked as a response, and
-- carries the request's base command, the command it decodes to, the sequence number, and the
-- status in `arg0`.
response_for_lem :
    (req : Header) (status : ℕ)
    → req.cmd < 256
    → let resp = response_for req status in
      (is_valid resp ≡ true)
      × (is_response resp ≡ true)
      × (cmd_base resp ≡ cmd_base req)
      × (cmd_enum resp ≡ cmd_enum req)
      × (resp.seq ≡ req.seq)
      × (resp.arg0 ≡ status)
unfolding response_for is_valid is_response cmd_enum
response_for_lem req status h =
    let low = bit_and_mask req.cmd h in
    let base = bit_or_flag (req.cmd % 128) (omega arith) in
    let again : bit_and (bit_or (bit_and req.cmd 0x7F) 0x80) 0x7F ≡ bit_and req.cmd 0x7F =
      rw (low, base, bit_and_mask (req.cmd % 128 + 128) (omega arith)) (omega arith) in
    (refl, rw (low, base, bit_and_flag (req.cmd % 128) (omega arith)), again, rw again, refl, refl)

-- A request header built for a command is valid, is no response, and decodes to that command.
new_header_lem :
    (c : Cmd) (seq arg0 arg1 : ℕ)
    → let h = new_header c seq arg0 arg1 in
      (is_valid h ≡ true) × (is_response h ≡ false) × (cmd_enum h ≡ some c)
unfolding new_header is_valid is_response cmd_enum
new_header_lem get_status seq arg0 arg1 = (refl, refl, refl)
new_header_lem get_capacity seq arg0 arg1 = (refl, refl, refl)
new_header_lem read seq arg0 arg1 = (refl, refl, refl)
new_header_lem write seq arg0 arg1 = (refl, refl, refl)
new_header_lem flush seq arg0 arg1 = (refl, refl, refl)

-- The payload of a capacity response decodes to the block size and the block count, where both fit
-- 32 bits.
u32_at-encode_capacity :
    (bs bc : ℕ)
    → bs < 2 ^ 32
    → bc < 2 ^ 32
    → (u32_at 0 (encode_capacity bs bc) ≡ bs) × (u32_at 4 (encode_capacity bs bc) ≡ bc)
unfolding u32_at encode_capacity
u32_at-encode_capacity bs bc h k = ground arith

-- ===== src/SpiLink/Serve.antt =====
-- The loop of `SpiLink::run` in src/spi_link/transport.rs: one header, the dispatch of its command,
-- and the response. The USB driver behind `GLOBAL_MSC` is `MassStorage`, over the same interface.
pub mod Integrity
pub mod Steps
pub mod Payload
pub mod Write
pub mod Kept
pub mod Ready
pub mod Filter
pub mod Read
pub mod Whole
pub mod Session
use bindkey_esp.Base.{
  ℕ, zero, suc, ◌+◌, ◌-◌, ◌%◌, ◌^◌, Bool, true, false, not, ◌||◌, Option, none, some, List, [], ◌∷◌,
  ◌==◌, if◌then◌else◌, length, take, replicate, overwrite, ok, err, Result, Status, EspErr,
  EspCodes, invalid_arg, invalid_state, invalid_crc,
}
use bindkey_esp.Base.Action.{Act, pure, gets, modify, ignore, assert, attempt, ◌>>=◌, ◌>>◌}
use bindkey_esp.Base.Words.{u32_at}
use bindkey_esp.MassStorage.Types.{MscApi, Sys}
use bindkey_esp.MassStorage.BlockDevice.{
  BlockDevStatus, not_present, not_ready, ready, capacity_unknown, bd_status, bd_refresh_capacity,
  bd_read_blocks, bd_write_blocks,
}
use bindkey_esp.SpiLink.Protocol.{
  Cmd, get_status, get_capacity, read, write, flush, Header, is_valid, cmd_enum, read_header,
  encode_capacity, max_payload, crc_len,
}
use bindkey_esp.SpiLink.Crc.{spi_crc32}
use bindkey_esp.SpiLink.Chunk.{Chunk, compute_chunk}
use bindkey_esp.SpiLink.Link.{
  hdr_len, rx_len, PerfSlave, Link, LinkSt, Peer, status_word, arm_response, arm_response_with_arg1,
  arm_response_from_block_buf, ready_high, ready_low, timer, spi_slave_xfer, send_response,
}

-- The payload byte of a status response.
unfoldable pub status_byte : BlockDevStatus → ℕ
status_byte not_present = 0
status_byte not_ready = 1
status_byte ready = 2

-- `(t1 - t0) as u64`, and `+=` on a `u64`.
abbrev pub elapsed : ℕ → ℕ → ℕ
elapsed t1 t0 = (t1 + 2 ^ 64 - t0) % 2 ^ 64

abbrev pub add64 : ℕ → ℕ → ℕ
add64 a b = (a + b) % 2 ^ 64

unfoldable pub count_read : (total0 usb0 usb1 : ℕ) → PerfSlave → PerfSlave
count_read total0 usb0 usb1 p = record p {
  read_ops = add64 p.read_ops 1;
  read_usb_us = add64 p.read_usb_us (elapsed usb1 usb0);
  read_total_us = add64 p.read_total_us (elapsed usb1 total0);
}

unfoldable pub count_write : (total0 usb0 usb1 : ℕ) → PerfSlave → PerfSlave
count_write total0 usb0 usb1 p = record p {
  write_ops = add64 p.write_ops 1;
  write_usb_us = add64 p.write_usb_us (elapsed usb1 usb0);
  write_total_us = add64 p.write_total_us (elapsed usb1 total0);
}

module _ {W : Type 0} (api : MscApi W) (codes : EspCodes) (peer : Peer) where
  abbrev rejoin_link :
      {A : Type 0} → LinkSt W → Option (Result A × Sys W) → Option (Result A × LinkSt W)
  rejoin_link s none = none
  rejoin_link s (some (r, sys)) = some (r, record s { sys = sys })

  -- A call of the USB driver leaves the link alone.
  abbrev on_usb : {A : Type 0} → Act (Sys W) A → Act (LinkSt W) A
  on_usb m s = rejoin_link s (m s.sys)

  abbrev set_link : (Link → Link) → Act (LinkSt W) (Unit {0})
  set_link f = modify (λ s. record s { link = f s.link })

  -- `arm_response` with no payload, and the transfer.
  unfoldable pub answer : Header → Status → Act (LinkSt W) (Unit {0})
  unfolding arm_response send_response
  answer req status = do
    set_link (arm_response req (status_word codes status) [])
    send_response peer

  pub serve_status : Header → Act (LinkSt W) (Unit {0})
  unfolding bd_status status_byte arm_response send_response
  serve_status req = do
    present ← gets (λ s. s.sys.global_set)
    status ← if present then on_usb (bd_status api) else pure not_present
    set_link (arm_response req (status_word codes (ok tt)) (status_byte status ∷ []))
    send_response peer

  pub capacity_response : Header → Result (ℕ × ℕ) → Link → Link
  unfolding encode_capacity arm_response arm_response_with_arg1
  capacity_response req (ok (bs, bc)) l =
      let payload = encode_capacity bs bc in
      arm_response_with_arg1 req (status_word codes (ok tt)) (length payload) payload l
  capacity_response req (err e) l = arm_response req (codes.code e) [] l

  -- The part behind the check that the driver is there.
  pub capacity_present : Header → Act (LinkSt W) (Unit {0})
  unfolding capacity_response bd_refresh_capacity send_response
  capacity_present req = do
    sizes ← attempt (on_usb (bd_refresh_capacity api))
    set_link (capacity_response req sizes)
    send_response peer

  pub serve_capacity : Header → Act (LinkSt W) (Unit {0})
  unfolding capacity_present answer
  serve_capacity req = do
    present ← gets (λ s. s.sys.global_set)
    if not present then answer req (err invalid_state) else capacity_present req

  unfoldable pub ensure_capacity_known : Act (LinkSt W) (Unit {0})
  unfolding bd_refresh_capacity
  ensure_capacity_known = do
    u ← gets (λ s. s.sys.usb)
    if not (capacity_unknown u) then pure tt else ignore (on_usb (bd_refresh_capacity api))

  -- The chunk that a request asks for, from the driver's cached capacity.
  unfoldable pub chunk_of : Header → Sys W → Result Chunk
  unfolding compute_chunk
  chunk_of req s = compute_chunk s.usb.block_size s.usb.block_count req.arg0 req.arg1 req.reserved

  read_response : Header → Chunk → Status → Link → Link
  unfolding arm_response arm_response_from_block_buf
  read_response req c (ok _) l =
      arm_response_from_block_buf req (status_word codes (ok tt)) c.len c.len l
  read_response req c (err e) l = arm_response req (codes.code e) [] l

  pub serve_read_chunk : Header → ℕ → Result Chunk → Act (LinkSt W) (Unit {0})
  unfolding read_response timer bd_read_blocks answer count_read
  serve_read_chunk req t0 (err e) = answer req (err e)
  serve_read_chunk req t0 (ok c) = do
    usb0 ← timer peer
    buf ← gets (λ s. s.link.block_buf)
    (status, out) ← on_usb (bd_read_blocks api c.lba c.nblocks (take c.len buf))
    set_link (λ l. record l { block_buf = overwrite 0 out l.block_buf })
    usb1 ← timer peer
    set_link (λ l. record l { perf = count_read t0 usb0 usb1 l.perf })
    set_link (read_response req c status)
    send_response peer

  read_present : Header → ℕ → Act (LinkSt W) (Unit {0})
  unfolding serve_read_chunk ensure_capacity_known chunk_of
  read_present req t0 = do
    ensure_capacity_known
    chunk ← gets (λ s. chunk_of req s.sys)
    serve_read_chunk req t0 chunk

  unfoldable pub serve_read : Header → Act (LinkSt W) (Unit {0})
  unfolding read_present timer answer
  serve_read req = do
    t0 ← timer peer
    present ← gets (λ s. s.sys.global_set)
    if not present then answer req (err invalid_state) else read_present req t0

  -- `tx_dma.clear()` and a transfer with READY high.
  unfoldable pub receive_payload : ℕ → Act (LinkSt W) Bool
  unfolding ready_high ready_low spi_slave_xfer
  receive_payload nbytes = do
    modify (λ s. record s { tx_dma = replicate (length s.tx_dma) 0 })
    ready_high
    received ← spi_slave_xfer peer nbytes
    ready_low
    pure received

  -- A write that cannot be served: the payload is clocked in and dropped.
  unfoldable pub refuse_write : Header → EspErr → Act (LinkSt W) (Unit {0})
  unfolding receive_payload answer
  refuse_write req e = do _ ← receive_payload (max_payload + crc_len); answer req (err e)

  write_response : Header → Chunk → Status → Link → Link
  unfolding arm_response arm_response_with_arg1
  write_response req c (ok _) l = arm_response_with_arg1 req (status_word codes (ok tt)) c.len [] l
  write_response req c (err e) l = arm_response req (codes.code e) [] l

  unfoldable pub store_payload : Header → ℕ → Chunk → List ℕ → Act (LinkSt W) (Unit {0})
  unfolding write_response timer bd_write_blocks count_write send_response
  store_payload req t0 c payload = do
    usb0 ← timer peer
    status ← attempt (on_usb (bd_write_blocks api c.lba c.nblocks payload))
    usb1 ← timer peer
    set_link (λ l. record l { perf = count_write t0 usb0 usb1 l.perf })
    set_link (write_response req c status)
    send_response peer

  -- The check of the CRC that follows the payload.
  unfoldable pub accept_payload : Header → ℕ → Chunk → Act (LinkSt W) (Unit {0})
  unfolding store_payload answer spi_crc32 u32_at
  accept_payload req t0 c = do
    rx ← gets (λ s. s.rx_dma)
    if not (u32_at c.len rx == spi_crc32 (take c.len rx))
        then answer req (err invalid_crc)
        else store_payload req t0 c (take c.len rx)

  unfoldable pub serve_write_chunk : Header → ℕ → Result Chunk → Act (LinkSt W) (Unit {0})
  unfolding receive_payload refuse_write accept_payload
  serve_write_chunk req t0 (err e) = refuse_write req e
  serve_write_chunk req t0 (ok c) = do
    received ← receive_payload (c.len + crc_len)
    if not received then pure tt else accept_payload req t0 c

  unfoldable pub write_present : Header → ℕ → Act (LinkSt W) (Unit {0})
  unfolding serve_write_chunk ensure_capacity_known chunk_of
  write_present req t0 = do
    ensure_capacity_known
    chunk ← gets (λ s. chunk_of req s.sys)
    serve_write_chunk req t0 chunk

  unfoldable pub serve_write : Header → Act (LinkSt W) (Unit {0})
  unfolding write_present timer refuse_write
  serve_write req = do
    t0 ← timer peer
    present ← gets (λ s. s.sys.global_set)
    if not present then refuse_write req invalid_state else write_present req t0

  unfoldable pub dispatch : Header → Option Cmd → Act (LinkSt W) (Unit {0})
  unfolding serve_status serve_capacity serve_read serve_write answer
  dispatch req none = answer req (err invalid_arg)
  dispatch req (some get_status) = serve_status req
  dispatch req (some get_capacity) = serve_capacity req
  dispatch req (some read) = serve_read req
  dispatch req (some write) = serve_write req
  dispatch req (some flush) = answer req (ok tt)

  -- A header that has arrived: what is not valid is dropped without an answer.
  unfoldable pub serve_received : Act (LinkSt W) (Unit {0})
  unfolding dispatch read_header is_valid cmd_enum
  serve_received = do
    req ← gets (λ s. read_header s.rx_dma)
    if not (is_valid req) then pure tt else dispatch req (cmd_enum req)

  -- The body of the loop.
  unfoldable pub serve_one : Act (LinkSt W) (Unit {0})
  unfolding serve_received spi_slave_xfer
  serve_one = do
    received ← spi_slave_xfer peer hdr_len
    if not received then pure tt else serve_received

  -- The first `n` rounds of the loop, which never returns.
  unfoldable pub serve_rounds : ℕ → Act (LinkSt W) (Unit {0})
  unfolding serve_one
  serve_rounds zero = pure tt
  serve_rounds (suc n) = do serve_one; serve_rounds n

  -- `run` up to the loop: the assertion and the two zeroed buffers.
  unfoldable pub start_run : Act (LinkSt W) (Unit {0})
  start_run = do
    inited ← gets (λ s. s.link.inited)
    assert inited
    modify (λ s. record s { rx_dma = replicate rx_len 0; tx_dma = replicate rx_len 0 })

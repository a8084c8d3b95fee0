-- ===== src/SpiLink/Link.antt =====
-- The state of src/spi_link/transport.rs: the link's buffers and counters, the two DMA buffers of
-- the loop, and how a response is staged. The SPI peripheral, the master behind it and the timer
-- are the parameter `Peer`: what each transfer in turn returns and receives, and what each timer
-- read gives.
pub mod Staging
pub mod Acknowledge
use bindkey_esp.Base.{
  ℕ, zero, ◌+◌, ◌-◌, ◌%◌, ◌^◌, min, Bool, true, false, some, List, [], ◌∷◌, ◌==◌, if◌then◌else◌,
  length, take, replicate, overwrite, ok, err, Status, EspCodes, EspErr,
}
use bindkey_esp.Base.Action.{Act, gets, modify, ignore, ◌>>=◌, ◌>>◌}
use bindkey_esp.Base.Words.{u32_le}
use bindkey_esp.SpiLink.Protocol.{Header, response_for, header_bytes, max_payload, crc_len}
use bindkey_esp.SpiLink.Crc.{spi_crc32}
use bindkey_esp.MassStorage.Types.{Effect, gpio_level, spi_transfer, Sys}

-- `HDR_LEN`, the size of the packed header, and `RX_LEN`.
abbrev pub hdr_len : ℕ
hdr_len = 16

abbrev pub rx_len : ℕ
rx_len = hdr_len + max_payload + crc_len

abbrev pub pin_ready : ℕ
pin_ready = 47

pub record PerfSlave : Type 0 where
  pub read_ops : ℕ
  pub write_ops : ℕ
  pub read_usb_us : ℕ
  pub write_usb_us : ℕ
  pub read_total_us : ℕ
  pub write_total_us : ℕ

-- `struct SpiLink`, in a module that has its name.
pub record Link : Type 0 where
  pub inited : Bool
  pub resp_len : ℕ
  pub resp_buf : List ℕ
  pub block_buf : List ℕ
  pub perf : PerfSlave
  pub last_req_done_us : ℕ

-- `SpiLink::new`
unfoldable pub new_link : Link
new_link = record {
  inited = false;
  resp_len = 0;
  resp_buf = replicate rx_len 0;
  block_buf = replicate max_payload 0;
  perf = record {
    read_ops = 0;
    write_ops = 0;
    read_usb_us = 0;
    write_usb_us = 0;
    read_total_us = 0;
    write_total_us = 0;
  };
  last_req_done_us = 0;
}

-- One transfer of the peripheral: its `esp_err_t` and the bytes that came in.
pub record Received : Type 0 where
  pub result : Status
  pub bytes : List ℕ

pub record Peer : Type 0 where
  pub transfer : ℕ → Received
  pub time_us : ℕ → ℕ

-- `rx_dma` and `tx_dma` are the locals of `run`; the counts say which transfer and which timer read
-- come next.
pub record LinkSt (W : Type 0) : Type 0 where
  pub sys : Sys W
  pub link : Link
  pub rx_dma : List ℕ
  pub tx_dma : List ℕ
  pub transfers : ℕ
  pub timer_reads : ℕ

-- `status as u32`
abbrev pub status_word : EspCodes → Status → ℕ
status_word codes (ok _) = codes.esp_ok
status_word codes (err e) = codes.code e

-- The header of a response.
unfoldable pub response_header : Header → (status arg1 : ℕ) → Header
unfolding response_for
response_header req status arg1 = record (response_for req status) {
  reserved = req.reserved;
  arg1 = arg1;
}

unfoldable pub arm_response_with_arg1 : Header → (status arg1 : ℕ) → List ℕ → Link → Link
arm_response_with_arg1 req status arg1 payload l =
    let buf = overwrite 0 (header_bytes (response_header req status arg1)) l.resp_buf in
    let pay_len = min (length payload) (rx_len - hdr_len) in
    if pay_len == 0 then record l { resp_buf = buf; resp_len = hdr_len } else record l {
      resp_buf = overwrite hdr_len (take pay_len payload) buf;
      resp_len = hdr_len + pay_len;
    }

unfoldable pub arm_response : Header → (status : ℕ) → List ℕ → Link → Link
unfolding arm_response_with_arg1
arm_response req status payload l = arm_response_with_arg1 req status 0 payload l

unfoldable pub arm_response_from_block_buf : Header → (status arg1 len : ℕ) → Link → Link
arm_response_from_block_buf req status arg1 len l =
    let buf = overwrite 0 (header_bytes (response_header req status arg1)) l.resp_buf in
    let pay_len = min len max_payload in
    if pay_len == 0 then record l { resp_buf = buf; resp_len = hdr_len } else record l {
      resp_buf =
          overwrite (hdr_len + pay_len) (u32_le (spi_crc32 (take pay_len l.block_buf)))
            (overwrite hdr_len (take pay_len l.block_buf) buf);
      resp_len = hdr_len + pay_len + crc_len;
    }

abbrev pub add_effect : {W : Type 0} → Effect → LinkSt W → LinkSt W
add_effect e s = record s { sys = record s.sys { effects = e ∷ s.sys.effects } }

abbrev pub succeeded : Status → Bool
succeeded (ok _) = true
succeeded (err e) = false

module _ {W : Type 0} where
  unfoldable pub ready_high : Act (LinkSt W) (Unit {0})
  ready_high = modify (add_effect (gpio_level pin_ready 1))

  unfoldable pub ready_low : Act (LinkSt W) (Unit {0})
  ready_low = modify (add_effect (gpio_level pin_ready 0))

module _ {W : Type 0} (peer : Peer) where
  -- `esp_timer_get_time`
  unfoldable pub timer : Act (LinkSt W) ℕ
  timer s = some (ok (peer.time_us s.timer_reads), record s { timer_reads = s.timer_reads + 1 })

  -- A timeout and any other error are both `false`. The frame that the firmware offers is recorded
  -- whether or not the transfer succeeds.
  unfoldable pub spi_slave_xfer : ℕ → Act (LinkSt W) Bool
  spi_slave_xfer nbytes s =
      let r = peer.transfer s.transfers in
      let moved = record s {
        rx_dma = overwrite 0 (take nbytes r.bytes) s.rx_dma;
        transfers = s.transfers + 1;
      } in
      some (ok (succeeded r.result), add_effect (spi_transfer nbytes (take nbytes s.tx_dma)) moved)

  unfoldable pub send_response : Act (LinkSt W) (Unit {0})
  unfolding ready_high ready_low spi_slave_xfer
  send_response = do
    n ← gets (λ s. s.link.resp_len)
    modify (λ s. record s { tx_dma = overwrite 0 (take n s.link.resp_buf) s.tx_dma })
    ready_high
    _ ← spi_slave_xfer n
    ready_low

-- ===== src/Tasks/Arrival.antt =====
-- The payload of a WRITE that arrives after the other tasks have run (src/spi_link/transport.rs and
-- src/usb_mass_storage/block_device.rs).
use mathlib.Core.Option
use bindkey_esp.Base.{
  ℕ, ◌+◌, ◌-◌, ◌*◌, ◌%◌, ◌^◌, ◌<◌, ◌≤◌, ◌≡◌, ◌≢◌, ◌⊎◌, inl, inr, refl, sym, ap, ◌∙◌, arith,
  Bool-cases, ◌==◌, none, some, Option, List, ◌++◌, Result, ok, EspCodes, length, take, drop,
  length-take, length-overwrite,
}
use bindkey_esp.Base.Words.{u32_at, u32_le}
use bindkey_esp.Base.Action.{resume, from_result}
use bindkey_esp.MassStorage.Types.{Board, Sys, UsbMassStorage, rejoin}
use bindkey_esp.MassStorage.BlockDevice.{bd_write_blocks, check_request}
use bindkey_esp.MassStorage.BlockDevice.Guards.{Servable, bd_blocks-Servable}
use bindkey_esp.SpiLink.Protocol.{Header, crc_len, max_payload}
use bindkey_esp.SpiLink.Crc.{spi_crc32}
use bindkey_esp.SpiLink.Chunk.{Chunk}
use bindkey_esp.SpiLink.Link.{
  LinkSt, Peer, rx_len, spi_slave_xfer, ready_low, succeeded, send_response, timer,
}
use bindkey_esp.SpiLink.Serve.{accept_payload, store_payload, answer}
use bindkey_esp.SpiLink.Serve.Integrity.{accept_payload_intact}
use bindkey_esp.SpiLink.Serve.Payload.{arrived}
use bindkey_esp.Tasks.{finish_write}
use bindkey_esp.Base.{replicate, overwrite}
use bindkey_esp.MassStorage.Types.{gpio_level, spi_transfer}
use bindkey_esp.SpiLink.Link.{pin_ready, add_effect, ready_high}
use bindkey_esp.SpiLink.Serve.{serve_write_chunk, receive_payload}

-- The DMA buffer is cleared and READY raised.
abbrev raised : {W : Type 0} → LinkSt W → LinkSt W
raised s = add_effect (gpio_level pin_ready 1) (record s { tx_dma = replicate (length s.tx_dma) 0 })

-- The payload has been clocked in and READY lowered.
abbrev lowered_again : {W : Type 0} → Peer → Chunk → LinkSt W → LinkSt W
lowered_again peer c s = add_effect (gpio_level pin_ready 0) (
    add_effect (spi_transfer (c.len + crc_len) (take (c.len + crc_len) s.tx_dma)) (record s {
      rx_dma = overwrite 0 (take (c.len + crc_len) (peer.transfer s.transfers).bytes) s.rx_dma;
      transfers = s.transfers + 1;
    }))

-- The chunk no longer fits the drive: no device is open, the sectors are not on the drive, or its
-- blocks have another size.
abbrev pub IsStale : {W : Type 0} → Sys W → Chunk → Type 0
IsStale s c =
    (s.usb.handle ≡ none)
    ⊎ ((s.usb.block_count < c.lba + c.nblocks) × (s.usb.block_count < 2 ^ 32 - 1))
    ⊎ (c.len ≢ c.nblocks * s.usb.block_size % 2 ^ 32)

-- The driver's fields and the libraries' world after an action.
abbrev pub drive_after :
    {W : Type 0} → Option (Result (Unit {0}) × LinkSt W) → Option (UsbMassStorage × W)
drive_after o = Option.map (λ r. (r.1.sys.usb, r.1.sys.world)) o

with_state :
    {S A : Type 0} (o : Option (Result A × S)) {s : S}
    → Option.map (λ r. r.1) o ≡ some s
    → (r : Result A) × (o ≡ some (r, s))
with_state none h = cc
with_state (some (r, t)) h = (r, cc)

module _ {W : Type 0} (b : Board W) (codes : EspCodes) (peer : Peer) where
  -- Where no other task runs while READY is high, the rest of the round is the round's own.
  serve_write_chunk-finish_write :
      (req : Header) (t0 : ℕ) (c : Chunk) (s : LinkSt W)
      → serve_write_chunk b.api codes peer req t0 (ok c) s
        ≡ finish_write b codes peer req t0 c (raised s)
  unfolding serve_write_chunk receive_payload finish_write spi_slave_xfer ready_high ready_low
  serve_write_chunk-finish_write req t0 c s = refl

  bd_write_blocks_stale :
      (s : Sys W) (c : Chunk) (payload : List ℕ)
      → length payload ≡ c.len
      → IsStale s c
      → Option.map (λ r. r.1) (bd_write_blocks b.api c.lba c.nblocks payload s) ≡ some s
  unfolding bd_write_blocks check_request
  bd_write_blocks_stale s c payload count (inl gone) = rw gone refl
  bd_write_blocks_stale s c payload count (inr (inl beyond)) = ground arith
  bd_write_blocks_stale s c payload count (inr (inr other)) = ground arith

  store_payload_refused :
      (req : Header) (t0 : ℕ) (c : Chunk) (payload : List ℕ) (s : LinkSt W)
      → Option.map (λ r. r.1) (bd_write_blocks b.api c.lba c.nblocks payload s.sys) ≡ some s.sys
      → drive_after (store_payload b.api codes peer req t0 c payload s)
        ≡ some (s.sys.usb, s.sys.world)
  unfolding store_payload timer send_response
  store_payload_refused req t0 c payload s kept =
      let (r, e) = with_state (bd_write_blocks b.api c.lba c.nblocks payload s.sys) kept in
      rw e refl

  -- A payload that arrives when its chunk no longer fits the drive is not written, whatever the
  -- other tasks did while the SPI task waited for it: no device is open, or the chunk's sectors
  -- are not all on the drive, for a drive of less than 2 ^ 32 - 1 blocks, or its bytes are not
  -- those of that many blocks. The driver's fields and the drive are as they were when the payload
  -- arrived, whether or not the transfer and its checksum are right. The receive buffer has its
  -- size and the chunk fits a payload.
  pub finish_write_stale :
      (req : Header) (t0 : ℕ) (c : Chunk) (s : LinkSt W)
      → length s.rx_dma ≡ rx_len
      → c.len ≤ max_payload
      → IsStale s.sys c
      → drive_after (finish_write b codes peer req t0 c s) ≡ some (s.sys.usb, s.sys.world)
  unfolding finish_write spi_slave_xfer ready_low accept_payload answer send_response
  finish_write_stale req t0 c s sized fits stale =
      let t = lowered_again peer c s in
      let buffer : length t.rx_dma ≡ rx_len = length-overwrite 0 _ s.rx_dma ∙ sized in
      let count : length (take c.len t.rx_dma) ≡ c.len =
        omega (arith, length-take c.len t.rx_dma, buffer, fits) in
      elim (Bool-cases (succeeded (peer.transfer s.transfers).result)) [
        | inr failed ↦ rw failed refl
        | inl done ↦ elim (Bool-cases (u32_at c.len t.rx_dma == spi_crc32 (take c.len t.rx_dma))) [
          | inr damaged ↦ rw (done, damaged) refl
          | inl intact ↦
              rw (done, intact)
                (store_payload_refused req t0 c (take c.len t.rx_dma) t
                  (bd_write_blocks_stale t.sys c (take c.len t.rx_dma) count stale))
        ]
      ]

  store_payload_taken :
      (req : Header) (t0 : ℕ) (c : Chunk) (payload : List ℕ) (s : LinkSt W) (w : W)
      → bd_write_blocks b.api c.lba c.nblocks payload s.sys
        ≡ some (ok tt, record s.sys { world = w })
      → drive_after (store_payload b.api codes peer req t0 c payload s) ≡ some (s.sys.usb, w)
  unfolding store_payload timer send_response
  store_payload_taken req t0 c payload s w stored = rw stored refl

  finish_write-accept :
      (req : Header) (t0 : ℕ) (c : Chunk) (s : LinkSt W)
      → (peer.transfer s.transfers).result ≡ ok tt
      → finish_write b codes peer req t0 c s
        ≡ accept_payload b.api codes peer req t0 c (lowered_again peer c s)
  unfolding finish_write spi_slave_xfer ready_low
  finish_write-accept req t0 c s done = rw done refl

  -- A payload that arrives intact, for a chunk that fits the drive as it is then, is written to the
  -- device that is open when it arrives, whichever device was open when the chunk was computed: the
  -- drive is left as that device's WRITE of the chunk's sectors, which succeeds, leaves it, and the
  -- driver's fields are as they were. The receive buffer has its size and the chunk fits a payload.
  pub finish_write_current :
      (req : Header) (t0 : ℕ) (c : Chunk) (s : LinkSt W) (h : ℕ) (payload : List ℕ) {w : W}
      → length s.rx_dma ≡ rx_len
      → c.len ≤ max_payload
      → Servable s.sys h c.lba c.nblocks (length payload)
      → length payload ≡ c.len
      → (peer.transfer s.transfers).result ≡ ok tt
      → (peer.transfer s.transfers).bytes ≡ payload ++ u32_le (spi_crc32 payload)
      → b.api.write10 h payload c.lba c.nblocks s.sys.usb.block_size s.sys.world
        ≡ some (ok (ok tt), w)
      → drive_after (finish_write b codes peer req t0 c s) ≡ some (s.sys.usb, w)
  finish_write_current req t0 c s h payload {w} sized fits v count done sent written =
      let t = lowered_again peer c s in
      let now_there : Servable t.sys h c.lba c.nblocks (length payload) = record {
        open_device = v.open_device;
        some_blocks = v.some_blocks;
        size_known = v.size_known;
        on_drive = v.on_drive;
        count_fits = v.count_fits;
        exact = v.exact;
        addressable = v.addressable;
      } in
      let stored =
        (bd_blocks-Servable b.api t.sys payload now_there).0
        ∙ ap (λ o. resume (rejoin t.sys o) from_result) written in
      let received =
        accept_payload_intact b.api codes peer req t0 c payload (drop (c.len + crc_len) s.rx_dma) t
          (sym count)
          (arrived payload s.rx_dma (peer.transfer s.transfers).bytes (spi_crc32 payload)
            (c.len + crc_len) sent (omega (arith, count)) (omega (arith, sized, fits))) in
      ap drive_after (finish_write-accept req t0 c s done ∙ received)
      ∙ store_payload_taken req t0 c payload t w stored

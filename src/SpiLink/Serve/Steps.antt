-- ===== src/SpiLink/Serve/Steps.antt =====
-- Steps that a READ and a WRITE of src/spi_link/transport.rs have in common.
use native.Mathlib.Nat.{mul-le-mul_left}
use bindkey_esp.Base.{
  ℕ, ◌+◌, ◌^◌, ◌<◌, ◌≡◌, refl, ap, ◌∙◌, arith, Bool, true, not, if◌then◌else◌, some, ok, length,
  take, overwrite,
}
use bindkey_esp.Base.Action.{Act, pure, ◌>>=◌}
use bindkey_esp.MassStorage.Types.{Sys, UsbMassStorage}
use bindkey_esp.MassStorage.BlockDevice.Guards.{Servable}
use bindkey_esp.MassStorage.BlockDevice.Store.{InReach}
use bindkey_esp.SpiLink.Protocol.{Header}
use bindkey_esp.SpiLink.Chunk.{Chunk, compute_chunk}
use bindkey_esp.SpiLink.Chunk.Bounds.{InBounds}
use bindkey_esp.SpiLink.Link.{rx_len, LinkSt, Peer, send_response}
use bindkey_esp.SpiLink.Link.Staging.{IsSized}
use bindkey_esp.SpiLink.Serve.Kept.{pulse}

-- An accepted chunk of the cached capacity, for the open device, is a request that can be served.
pub chunk-Servable :
    {W : Type 0}
    → (s : Sys W) (h : ℕ) {c : Chunk} {bytes : ℕ} → s.usb.handle ≡ some h
    → s.usb.block_count < 2 ^ 32
    → InBounds s.usb.block_size s.usb.block_count c
    → bytes ≡ c.len
    → Servable s h c.lba c.nblocks bytes
chunk-Servable s h {c} open_device fits v same = record {
  open_device = open_device;
  some_blocks = v.nonempty;
  size_known = v.block_size_pos;
  on_drive = v.on_drive;
  count_fits = fits;
  exact = omega (arith, same, v.bytes);
  addressable = omega (arith, v.bytes, v.fits);
}

-- One command can name the sectors of an accepted chunk.
pub chunk-InReach : {bs bc : ℕ} {c : Chunk} → InBounds bs bc c → InReach bs bc c.lba c.nblocks
chunk-InReach {bs} {bc} {c} v = record {
  some_blocks = v.nonempty;
  on_drive = v.on_drive;
  few = omega (arith, v.bytes, v.fits, mul-le-mul_left c.nblocks v.block_size_pos);
  addressable = omega (arith, v.bytes, v.fits);
}

module _ {W : Type 0} where
  abbrev pub after_timer : LinkSt W → LinkSt W
  after_timer s = record s { timer_reads = s.timer_reads + 1 }

  -- The branch that a test which holds takes.
  pub chosen :
      (b : Bool) (x y : Act (LinkSt W) (Unit {0})) (s : LinkSt W)
      → b ≡ true
      → (if not b then x else y) s ≡ y s
  chosen b x y s e = rw e refl

  -- A step that a test which holds skips.
  pub skipped :
      (b : Bool) (y : Act (LinkSt W) (Unit {0})) (k : Unit {0} → Act (LinkSt W) (Unit {0}))
      (s : LinkSt W)
      → b ≡ true
      → ((if b then pure tt else y) >>= k) s ≡ k tt s
  skipped b y k s e = rw e refl

-- The link, the driver and a device that is `up`, as a READ or a WRITE finds them and leaves them.
pub record IsServing {W : Type 0} (up : W → Type 0) (h bs bc : ℕ) (s : LinkSt W) : Type 0 where
  pub device_up : up s.sys.world
  pub present : s.sys.global_set ≡ true
  pub open_device : s.sys.usb.handle ≡ some h
  pub block_size : s.sys.usb.block_size ≡ bs
  pub block_count : s.sys.usb.block_count ≡ bc
  pub sized : IsSized s.link
  pub rx_sized : length s.rx_dma ≡ rx_len
  pub tx_sized : length s.tx_dma ≡ rx_len

-- The same after a change of the link, the buffers and the world alone.
pub IsServing-move :
    {W : Type 0} {up : W → Type 0} {h bs bc : ℕ} {s t : LinkSt W}
    → IsServing up h bs bc s
    → t.sys.global_set ≡ s.sys.global_set
    → t.sys.usb ≡ s.sys.usb
    → up t.sys.world
    → IsSized t.link
    → length t.rx_dma ≡ rx_len
    → length t.tx_dma ≡ rx_len
    → IsServing up h bs bc t
IsServing-move v same_set same_usb device_up sized rx_sized tx_sized = record {
  device_up = device_up;
  present = same_set ∙ v.present;
  open_device = ap (λ (u : UsbMassStorage). u.handle) same_usb ∙ v.open_device;
  block_size = ap (λ (u : UsbMassStorage). u.block_size) same_usb ∙ v.block_size;
  block_count = ap (λ (u : UsbMassStorage). u.block_count) same_usb ∙ v.block_count;
  sized = sized;
  rx_sized = rx_sized;
  tx_sized = tx_sized;
}

-- The state when a staged response has been sent.
abbrev pub answered : {W : Type 0} → Peer → LinkSt W → LinkSt W
answered peer t =
    let n = t.link.resp_len in
    let tx = overwrite 0 (take n t.link.resp_buf) t.tx_dma in
    pulse n (take n tx) (record t {
      tx_dma = tx;
      rx_dma = overwrite 0 (take n (peer.transfer t.transfers).bytes) t.rx_dma;
      transfers = t.transfers + 1;
    })

pub send_response-answered :
    {W : Type 0} (peer : Peer) (t : LinkSt W) → send_response peer t ≡ some (ok tt, answered peer t)
unfolding send_response
send_response-answered peer t = refl

-- The chunk is accepted with the sizes that the driver has.
pub compute_chunk-serving :
    {W : Type 0} {up : W → Type 0} {h bs bc : ℕ} (req : Header) (s : LinkSt W) {c : Chunk}
    → IsServing up h bs bc s
    → compute_chunk bs bc req.arg0 req.arg1 req.reserved ≡ ok c
    → compute_chunk s.sys.usb.block_size s.sys.usb.block_count req.arg0 req.arg1 req.reserved ≡ ok c
compute_chunk-serving {bs = bs} req s v accepted =
    ap (λ z. compute_chunk z s.sys.usb.block_count req.arg0 req.arg1 req.reserved) v.block_size
    ∙ ap (λ z. compute_chunk bs z req.arg0 req.arg1 req.reserved) v.block_count
    ∙ accepted

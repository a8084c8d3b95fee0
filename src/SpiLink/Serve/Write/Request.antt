-- ===== src/SpiLink/Serve/Write/Request.antt =====
-- What a WRITE of one chunk leaves to the next one (src/spi_link/transport.rs).
use bindkey_esp.Base.{
  ℕ, ◌+◌, ◌^◌, ◌<◌, ◌*◌, ◌≡◌, refl, sym, ap, ◌∙◌, arith, some, Option, List, [], ◌∷◌, ◌++◌, Result,
  ok, EspCodes, length, take, replicate, length-overwrite, length-replicate,
}
use bindkey_esp.Base.Words.{u32_le}
use bindkey_esp.MassStorage.Types.{MscApi, Effect, gpio_level, spi_transfer}
use bindkey_esp.MassStorage.BlockDevice.Store.{Disk, stored, IsDrive}
use bindkey_esp.SpiLink.Protocol.{Header, header_bytes, crc_len}
use bindkey_esp.SpiLink.Crc.{spi_crc32}
use bindkey_esp.SpiLink.Chunk.{Chunk, compute_chunk}
use bindkey_esp.SpiLink.Chunk.Bounds.{compute_chunk-InBounds}
use bindkey_esp.SpiLink.Link.{hdr_len, rx_len, pin_ready, LinkSt, Peer, response_header}
use bindkey_esp.SpiLink.Link.Acknowledge.{arm_response_with_arg1-IsSized}
use bindkey_esp.SpiLink.Serve.{serve_write}
use bindkey_esp.SpiLink.Serve.Steps.{
  chunk-InReach, IsServing, compute_chunk-serving, after_timer, answered, send_response-answered,
}
use bindkey_esp.SpiLink.Serve.Payload.{clocked_in, acknowledging}
use bindkey_esp.SpiLink.Serve.Write.{outside, serve_write-acknowledged, serve_write_lem}

-- What a stored chunk of `len` bytes adds to what was done to the outside, newest first.
abbrev pub acknowledgement : EspCodes → Header → (len : ℕ) → List Effect → List Effect
acknowledgement codes req len es =
    gpio_level pin_ready 0
    ∷ spi_transfer hdr_len (header_bytes (response_header req codes.esp_ok len))
    ∷ gpio_level pin_ready 1
    ∷ gpio_level pin_ready 0
    ∷ spi_transfer (len + crc_len) (take (len + crc_len) (replicate rx_len 0))
    ∷ gpio_level pin_ready 1
    ∷ es

-- What a WRITE of a chunk does: the chunk's sectors are stored, and the next chunk finds the link
-- and the driver as this one did, two transfers later.
pub record Written {W : Type 0} (codes : EspCodes) (disk_of : W → Disk) (up : W → Type 0)
    (h bs bc : ℕ) (req : Header) (c : Chunk) (payload : List ℕ) (s : LinkSt W)
    (o : Option (Result (Unit {0}) × LinkSt W)) : Type 0 where
  pub after : LinkSt W
  pub returns : o ≡ some (ok tt, after)
  pub serving : IsServing up h bs bc after
  pub data_stored :
      disk_of after.sys.world ≡ stored bs c.lba c.nblocks payload (disk_of s.sys.world)
  pub sent : after.sys.effects ≡ acknowledgement codes req c.len s.sys.effects
  pub two_transfers : after.transfers ≡ s.transfers + 1 + 1

effects-outside :
    {W : Type 0} {w : W} {s : LinkSt W} {es : List Effect}
    {o : Option (Result (Unit {0}) × LinkSt W)}
    → o ≡ some (ok tt, s)
    → outside o ≡ some (w, es)
    → s.sys.effects ≡ es
effects-outside {W = W} {w = w} {s = s} {es = es} e h =
    let both : ◌≡◌ {A = Option (W × List Effect)} (some (s.sys.world, s.sys.effects))
        (some (w, es)) =
      sym (ap outside e) ∙ h in
    cc

module _ {W : Type 0} (api : MscApi W) (codes : EspCodes) (peer : Peer) (disk_of : W → Disk)
    (up : W → Type 0) (h bs bc : ℕ) (drive : IsDrive api h bs bc disk_of up)
    (fits : bc < 2 ^ 32) where
  pub serve_write-Written :
      (req : Header) (s : LinkSt W) (c : Chunk) (payload : List ℕ)
      → IsServing up h bs bc s
      → compute_chunk bs bc req.arg0 req.arg1 req.reserved ≡ ok c
      → length payload ≡ c.len
      → (peer.transfer s.transfers).result ≡ ok tt
      → (peer.transfer s.transfers).bytes ≡ payload ++ u32_le (spi_crc32 payload)
      → Written codes disk_of up h bs bc req c payload s (serve_write api codes peer req s)
  serve_write-Written req s c payload v accepted count done bytes =
      let k = compute_chunk-InBounds bs bc req.arg0 req.arg1 req.reserved accepted in
      let near = chunk-InReach k in
      let exact : length payload ≡ c.nblocks * bs = count ∙ k.bytes in
      let w = drive.after_write c.lba c.nblocks payload s.sys.world in
      let command =
        ap (λ z. api.write10 h payload c.lba c.nblocks z s.sys.world) v.block_size
        ∙ drive.writes payload c.lba c.nblocks s.sys.world v.device_up near exact in
      let chunk = compute_chunk-serving req s v accepted in
      let counted : s.sys.usb.block_count < 2 ^ 32 = omega (arith, v.block_count, fits) in
      let t =
        acknowledging api codes peer (peer.time_us s.timer_reads)
          (clocked_in api codes peer (after_timer s) (c.len + crc_len)) req c w in
      let returns =
        serve_write-acknowledged api codes peer req s h payload v.present v.open_device counted
          v.rx_sized chunk count done bytes command
        ∙ send_response-answered peer t in
      let effects =
        serve_write_lem api codes peer req s h payload v.present v.open_device counted v.sized
          v.rx_sized v.tx_sized chunk count done bytes command in
      record {
        after = answered peer t;
        returns = returns;
        serving = record {
          device_up =
              drive.up_after_write payload c.lba c.nblocks s.sys.world v.device_up near exact;
          present = v.present;
          open_device = v.open_device;
          block_size = v.block_size;
          block_count = v.block_count;
          sized = arm_response_with_arg1-IsSized req codes.esp_ok c.len [] (record {
            resp = v.sized.resp;
            block = v.sized.block;
            staged_fits = v.sized.staged_fits;
          });
          rx_sized = length-overwrite 0 _ _ ∙ length-overwrite 0 _ s.rx_dma ∙ v.rx_sized;
          tx_sized = length-overwrite 0 _ _ ∙ length-replicate (length s.tx_dma) 0 ∙ v.tx_sized;
        };
        data_stored = drive.write_stores payload c.lba c.nblocks s.sys.world v.device_up near exact;
        sent = effects-outside returns effects;
        two_transfers = refl;
      }

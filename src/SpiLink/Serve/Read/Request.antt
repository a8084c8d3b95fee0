-- ===== src/SpiLink/Serve/Read/Request.antt =====
-- A whole READ of src/spi_link/transport.rs: the master asks for the chunks of a request one after
-- the other.
use mathlib.Core.Option
use bindkey_esp.Base.{
  ℕ, not, ◌+◌, ◌^◌, ◌<◌, ◌≡◌, refl, sym, ap, ◌∙◌, arith, true, some, Option, List, ◌∷◌, ◌++◌,
  Result, ok, EspCodes, length, take, length-take, length-overwrite,
}
use bindkey_esp.Base.Words.{u32_le}
use bindkey_esp.MassStorage.Types.{MscApi, Effect, gpio_level, spi_transfer, rejoin}
use bindkey_esp.MassStorage.BlockDevice.{capacity_unknown}
use bindkey_esp.MassStorage.BlockDevice.Guards.{bd_blocks-Servable}
use bindkey_esp.MassStorage.BlockDevice.Store.{Disk, sectors, IsDrive}
use bindkey_esp.SpiLink.Protocol.{Header, header_bytes, crc_len}
use bindkey_esp.SpiLink.Crc.{spi_crc32}
use bindkey_esp.SpiLink.Chunk.{Chunk, compute_chunk}
use bindkey_esp.SpiLink.Chunk.Bounds.{compute_chunk-InBounds}
use bindkey_esp.SpiLink.Link.{hdr_len, pin_ready, LinkSt, Peer, response_header}
use bindkey_esp.SpiLink.Serve.{chunk_of, serve_read}
use bindkey_esp.SpiLink.Serve.Steps.{
  chunk-Servable, chunk-InReach, after_timer, IsServing, compute_chunk-serving, answered,
  send_response-answered,
}
use bindkey_esp.SpiLink.Serve.Read.{
  ready_to_answer, serve_read-staged, serve_read_lem, arm_response_from_block_buf-IsSized,
}

abbrev pub reply_of_length : EspCodes → Header → List ℕ → List Effect → ℕ → List Effect
reply_of_length codes req bytes es n =
    gpio_level pin_ready 0
    ∷ spi_transfer (hdr_len + n + crc_len)
        ((header_bytes (response_header req codes.esp_ok n) ++ bytes) ++ u32_le (spi_crc32 bytes))
    ∷ gpio_level pin_ready 1
    ∷ es

-- What a served chunk adds to what was done to the outside, newest first.
abbrev pub reply : EspCodes → Header → List ℕ → List Effect → List Effect
reply codes req bytes es = reply_of_length codes req bytes es (length bytes)

-- What a READ of a chunk does: the data of the chunk's sectors is sent, and the next chunk finds
-- the link, the driver and the drive's data as this one did.
pub record Served {W : Type 0} (codes : EspCodes) (disk_of : W → Disk) (up : W → Type 0)
    (h bs bc : ℕ) (req : Header) (c : Chunk) (s : LinkSt W)
    (o : Option (Result (Unit {0}) × LinkSt W)) : Type 0 where
  pub after : LinkSt W
  pub returns : o ≡ some (ok tt, after)
  pub serving : IsServing up h bs bc after
  pub same_data : disk_of after.sys.world ≡ disk_of s.sys.world
  pub sent :
      after.sys.effects
      ≡ reply codes req (sectors (disk_of s.sys.world) c.lba c.nblocks) s.sys.effects
  pub one_transfer : after.transfers ≡ s.transfers + 1

some-injective : {A : Type 0} {x y : A} → some x ≡ some y → x ≡ y
some-injective e = cc

module _ {W : Type 0} (api : MscApi W) (codes : EspCodes) (peer : Peer) (disk_of : W → Disk)
    (up : W → Type 0) (h bs bc : ℕ) (drive : IsDrive api h bs bc disk_of up)
    (fits : bc < 2 ^ 32) where
  pub serve_read-Served :
      (req : Header) (s : LinkSt W) (c : Chunk)
      → IsServing up h bs bc s
      → compute_chunk bs bc req.arg0 req.arg1 req.reserved ≡ ok c
      → Served codes disk_of up h bs bc req c s (serve_read api codes peer req s)
  unfolding chunk_of
  serve_read-Served req s c v accepted =
      let k = compute_chunk-InBounds bs bc req.arg0 req.arg1 req.reserved accepted in
      let near = chunk-InReach k in
      let buffer : length (take c.len s.link.block_buf) ≡ c.len =
        omega (arith, length-take c.len s.link.block_buf, v.sized.block, k.fits) in
      let out = sectors (disk_of s.sys.world) c.lba c.nblocks in
      let w = drive.after_read c.lba c.nblocks s.sys.world in
      let command =
        ap (λ z. api.read10 h (take c.len s.link.block_buf) c.lba c.nblocks z s.sys.world)
          v.block_size
        ∙ drive.reads (take c.len s.link.block_buf) c.lba c.nblocks s.sys.world v.device_up near
            (buffer ∙ k.bytes) in
      let filled : length out ≡ c.len =
        api.length-read10 h _ c.lba c.nblocks _ s.sys.world w (ok tt) out command ∙ buffer in
      let chunk = compute_chunk-serving req s v accepted in
      let known : not (capacity_unknown s.sys.usb) ≡ true =
        ground (arith, v.block_size, v.block_count, k.block_size_pos, k.nonempty, k.on_drive) in
      let counted : s.sys.usb.block_count < 2 ^ 32 = omega (arith, v.block_count, fits) in
      let k' =
        compute_chunk-InBounds s.sys.usb.block_size s.sys.usb.block_count req.arg0 req.arg1
          req.reserved chunk in
      let read =
        (bd_blocks-Servable api s.sys (take c.len s.link.block_buf)
          (chunk-Servable s.sys h v.open_device counted k' buffer)).1
        ∙ ap (λ o. rejoin s.sys o) command in
      let t =
        ready_to_answer api codes peer (peer.time_us s.timer_reads) (after_timer s) req c out w in
      let returns =
        serve_read-staged api codes peer req s c out w v.present known chunk read
        ∙ send_response-answered peer t in
      let effects =
        serve_read_lem api codes peer req s h v.present v.open_device counted v.sized v.tx_sized
          chunk command in
      record {
        after = answered peer t;
        returns = returns;
        serving = record {
          device_up = drive.up_after_read c.lba c.nblocks s.sys.world v.device_up near;
          present = v.present;
          open_device = v.open_device;
          block_size = v.block_size;
          block_count = v.block_count;
          sized = arm_response_from_block_buf-IsSized req codes.esp_ok c.len c.len (record {
            resp = v.sized.resp;
            block = length-overwrite 0 out s.link.block_buf ∙ v.sized.block;
            staged_fits = v.sized.staged_fits;
          });
          rx_sized = length-overwrite 0 _ s.rx_dma ∙ v.rx_sized;
          tx_sized = length-overwrite 0 _ s.tx_dma ∙ v.tx_sized;
        };
        same_data = drive.read_keeps c.lba c.nblocks s.sys.world v.device_up near;
        sent =
            some-injective (sym (ap (Option.map (λ r. r.1.sys.effects)) returns) ∙ effects)
            ∙ ap (reply_of_length codes req out s.sys.effects) (sym filled);
        one_transfer = refl;
      }

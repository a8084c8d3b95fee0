-- ===== src/SpiLink/Serve/Session/Probe.antt =====
-- The requests of src/spi_link/transport.rs that ask after the drive: GET_STATUS and GET_CAPACITY.
use bindkey_esp.Base.{
  ℕ, ◌+◌, ◌<◌, ◌≡◌, refl, ap, ◌∙◌, arith, Bool, true, false, if◌then◌else◌, some, List, [], ◌∷◌,
  ◌++◌, ok, EspCodes,
}
use bindkey_esp.Base.Action.{Act, modify, resume, ◌>>◌}
use bindkey_esp.MassStorage.Types.{MscApi, Sys}
use bindkey_esp.MassStorage.BlockDevice.{ready, capacity_unknown, bd_status, bd_refresh_capacity}
use bindkey_esp.MassStorage.BlockDevice.Store.{Disk}
use bindkey_esp.SpiLink.Protocol.{Header, header_bytes, encode_capacity}
use bindkey_esp.SpiLink.Link.{
  LinkSt, Peer, status_word, arm_response, response_header, send_response,
}
use bindkey_esp.SpiLink.Serve.{
  serve_status, serve_capacity, capacity_present, capacity_response, status_byte,
}
use bindkey_esp.SpiLink.Serve.Steps.{IsServing, IsServing-move, chosen}
use bindkey_esp.SpiLink.Serve.Session.View.{Done, Done-same, offered}
use bindkey_esp.SpiLink.Serve.Session.Answer.{armed-Done}

-- A device that is ready while it is `up`, reports its sizes, and is not changed by that.
pub record IsAwake {W : Type 0} (api : MscApi W) (h bs bc : ℕ) (disk_of : W → Disk)
    (up : W → Type 0) : Type 0 where
  pub after_probe : W → W
  pub after_capacity : W → W
  pub probes : (w : W) → up w → api.unit_ready h w ≡ some (ok (ok tt), after_probe w)
  pub reports :
      (w : W) → up w → api.read_capacity h w ≡ some (ok (ok tt, some (bs, bc)), after_capacity w)
  pub probe_keeps : (w : W) → up w → disk_of (after_probe w) ≡ disk_of w
  pub report_keeps : (w : W) → up w → disk_of (after_capacity w) ≡ disk_of w
  pub up_after_probe : (w : W) → up w → up (after_probe w)
  pub up_after_capacity : (w : W) → up w → up (after_capacity w)

-- The frames of the answers.
abbrev pub ready_frame : EspCodes → Header → List ℕ
ready_frame codes req = header_bytes (response_header req codes.esp_ok 0) ++ (2 ∷ [])

abbrev pub capacity_frame : EspCodes → Header → (bs bc : ℕ) → List ℕ
capacity_frame codes req bs bc =
    header_bytes (response_header req codes.esp_ok 8) ++ encode_capacity bs bc

taken : {S A : Type 0} (b : Bool) (m k : Act S A) (s : S) → b ≡ true → (if b then m else k) s ≡ m s
taken b m k s e = rw e refl

module _ {W : Type 0} (api : MscApi W) (codes : EspCodes) (peer : Peer) (disk_of : W → Disk)
    (up : W → Type 0) (h bs bc : ℕ) (awake : IsAwake api h bs bc disk_of up) (pos : 0 < bs)
    (some_blocks : 0 < bc) where
  bd_status-awake :
      (s : LinkSt W)
      → IsServing up h bs bc s
      → bd_status api s.sys
        ≡ some (ok ready, record s.sys { world = awake.after_probe s.sys.world })
  unfolding bd_status
  bd_status-awake s v =
      let known : capacity_unknown s.sys.usb ≡ false =
        ground (arith, v.block_size, v.block_count, pos, some_blocks) in
      rw (v.open_device, known, awake.probes s.sys.world v.device_up) refl

  -- The driver with the sizes that the device reports.
  abbrev refreshed : Sys W → Sys W
  refreshed s = record s {
    usb = record s.usb { block_size = bs; block_count = bc };
    world = awake.after_capacity s.world;
  }

  bd_refresh_capacity-awake :
      (s : LinkSt W)
      → IsServing up h bs bc s
      → bd_refresh_capacity api s.sys ≡ some (ok (bs, bc), refreshed s.sys)
  unfolding bd_refresh_capacity
  bd_refresh_capacity-awake s v = rw (v.open_device, awake.reports s.sys.world v.device_up) refl

  pub serve_status-Done :
      (req : Header) (s : LinkSt W)
      → IsServing up h bs bc s
      → Done disk_of up h bs bc
          (disk_of s.sys.world, ready_frame codes req ∷ offered s.sys.effects)
          (s.transfers + 1)
          (serve_status api codes peer req s)
  unfolding serve_status status_byte arm_response
  serve_status-Done req s v =
      let t = record s { sys = record s.sys { world = awake.after_probe s.sys.world } } in
      Done-same
        (ap
            (λ o. resume o λ status.
              modify (λ r. record r {
                link =
                    arm_response req (status_word codes (ok tt)) (status_byte status ∷ []) r.link;
              })
              >> send_response peer)
            (taken s.sys.global_set _ _ s v.present)
          ∙ rw (bd_status-awake s v) refl)
        (ap (λ d. (d, ready_frame codes req ∷ offered s.sys.effects))
          (awake.probe_keeps s.sys.world v.device_up))
        (armed-Done api codes peer disk_of up h bs bc req codes.esp_ok 0 (2 ∷ []) t
          (IsServing-move v refl refl (awake.up_after_probe s.sys.world v.device_up) v.sized
            v.rx_sized v.tx_sized)
          (omega arith))

  pub serve_capacity-Done :
      (req : Header) (s : LinkSt W)
      → IsServing up h bs bc s
      → Done disk_of up h bs bc
          (disk_of s.sys.world, capacity_frame codes req bs bc ∷ offered s.sys.effects)
          (s.transfers + 1)
          (serve_capacity api codes peer req s)
  unfolding serve_capacity capacity_present capacity_response encode_capacity
  serve_capacity-Done req s v =
      let t = record s { sys = refreshed s.sys } in
      Done-same
        (chosen s.sys.global_set _ (capacity_present api codes peer req) s v.present
          ∙ rw (bd_refresh_capacity-awake s v) refl)
        (ap (λ d. (d, capacity_frame codes req bs bc ∷ offered s.sys.effects))
          (awake.report_keeps s.sys.world v.device_up))
        (armed-Done api codes peer disk_of up h bs bc req codes.esp_ok 8 (encode_capacity bs bc) t
          (record {
            device_up = awake.up_after_capacity s.sys.world v.device_up;
            present = v.present;
            open_device = v.open_device;
            block_size = refl;
            block_count = refl;
            sized = v.sized;
            rx_sized = v.rx_sized;
            tx_sized = v.tx_sized;
          })
          (omega arith))

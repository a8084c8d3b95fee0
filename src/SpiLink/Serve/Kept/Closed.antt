-- ===== src/SpiLink/Serve/Kept/Closed.antt =====
-- The service loop of src/spi_link/transport.rs while no device is open.
use bindkey_esp.Base.{ℕ, ◌≡◌, refl, ap, ◌∙◌, none, List, EspCodes}
use bindkey_esp.MassStorage.Types.{MscApi, Sys, UsbMassStorage}
use bindkey_esp.MassStorage.BlockDevice.{
  bd_status, bd_refresh_capacity, bd_read_blocks, bd_write_blocks, check_request,
}
use bindkey_esp.SpiLink.Link.{LinkSt, Peer}
use bindkey_esp.SpiLink.Serve.{serve_rounds}
use bindkey_esp.SpiLink.Serve.Kept.{Kept, KeptSys, IsClosed}
use bindkey_esp.SpiLink.Serve.Kept.Rounds.{serve_rounds-Kept}

-- The USB driver and the USB side of the board are as they were.
abbrev pub Untouched : {W : Type 0} → Sys W → LinkSt W → Type 0
Untouched t s = (s.sys.usb ≡ t.usb) × (s.sys.world ≡ t.world)

still_closed : {u v : UsbMassStorage} → u ≡ v → v.handle ≡ none → u.handle ≡ none
still_closed same closed = ap (λ (x : UsbMassStorage). x.handle) same ∙ closed

module _ {W : Type 0} (api : MscApi W) (t : Sys W) (closed : t.usb.handle ≡ none) where
  bd_status-Untouched :
      (s : LinkSt W) → Untouched t s → KeptSys (Untouched t) s (bd_status api s.sys)
  unfolding bd_status KeptSys
  bd_status-Untouched s h = simp (still_closed h.0 closed) h

  bd_refresh_capacity-Untouched :
      (s : LinkSt W) → Untouched t s → KeptSys (Untouched t) s (bd_refresh_capacity api s.sys)
  unfolding bd_refresh_capacity KeptSys
  bd_refresh_capacity-Untouched s h = simp (still_closed h.0 closed) h

  bd_read_blocks-Untouched :
      (lba n : ℕ) (out : List ℕ) (s : LinkSt W)
      → Untouched t s
      → KeptSys (Untouched t) s (bd_read_blocks api lba n out s.sys)
  unfolding bd_read_blocks check_request KeptSys
  bd_read_blocks-Untouched lba n out s h = simp (still_closed h.0 closed) h

  bd_write_blocks-Untouched :
      (lba n : ℕ) (payload : List ℕ) (s : LinkSt W)
      → Untouched t s
      → KeptSys (Untouched t) s (bd_write_blocks api lba n payload s.sys)
  unfolding bd_write_blocks check_request KeptSys
  bd_write_blocks-Untouched lba n payload s h = simp (still_closed h.0 closed) h

  Untouched-IsClosed : IsClosed api (Untouched t)
  Untouched-IsClosed = record {
    unrelated = λ s r same h.
        (ap (λ (x : Sys W). x.usb) same ∙ h.0, ap (λ (x : Sys W). x.world) same ∙ h.1);
    clocked = λ n sent s h. h;
    pulsed = λ n sent s h. h;
    probed = bd_status-Untouched;
    refreshed = bd_refresh_capacity-Untouched;
    fetched = bd_read_blocks-Untouched;
    stored = bd_write_blocks-Untouched;
  }

-- While no device is open, no request reaches one: any number of rounds that do not crash,
-- whatever the master sends, leave the USB driver and the USB side as they were.
pub serve_rounds-Untouched :
    {W : Type 0} (api : MscApi W) (codes : EspCodes) (peer : Peer) (n : ℕ) (s : LinkSt W)
    → s.sys.usb.handle ≡ none
    → Kept (Untouched s.sys) (serve_rounds api codes peer n s)
serve_rounds-Untouched api codes peer n s closed =
    serve_rounds-Kept api codes peer (Untouched-IsClosed api s.sys closed) n s (refl, refl)

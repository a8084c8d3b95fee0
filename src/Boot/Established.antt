-- ===== src/Boot/Established.antt =====
-- What the start of src/main.rs establishes for the loop and the SPI task.
use bindkey_esp.Base.{
  ℕ, zero, suc, ◌≡◌, true, Option, none, some, Result, ok, err, arith, length-replicate,
}
use bindkey_esp.MassStorage.Types.{Board, Sys}
use bindkey_esp.MassStorage.Driver.{poll}
use bindkey_esp.MassStorage.Driver.Coherence.{IsCoherent, Holds, Holds-bind, Delivers, poll-Holds}
use bindkey_esp.SpiLink.Link.{LinkSt, new_link, rx_len}
use bindkey_esp.SpiLink.Link.Staging.{IsSized}
use bindkey_esp.SpiLink.Protocol.{max_payload}
use bindkey_esp.Boot.{Peripherals, boot, main_rounds}

-- What the loop and the SPI task start from.
pub record IsReady {W : Type 0} (s : LinkSt W) : Type 0 where
  pub inited : s.link.inited ≡ true
  pub sized : IsSized s.link
  pub driver_set : s.sys.global_set ≡ true
  pub switch_set : s.sys.tps_initialized ≡ true
  pub coherent : IsCoherent s.sys.usb

new_link-IsSized : IsSized new_link
unfolding new_link
new_link-IsSized = record {
  resp = length-replicate {A = ℕ} rx_len 0;
  block = length-replicate {A = ℕ} max_payload 0;
  staged_fits = omega arith;
}

module _ {W : Type 0} (b : Board W) (p : Peripherals W) where
  -- After a start that succeeds, and `n` rounds of the loop that follows it.
  abbrev pub Started : ℕ → Option (Result (Unit {0}) × LinkSt W) → Type 0
  Started n none = Unit
  Started n (some (ok _, s)) = IsReady s × Holds (main_rounds b n s.sys)
  Started n (some (err e, s)) = Unit

  main_rounds-Holds :
      (n : ℕ) (s : Sys W)
      → ((w : W) → Delivers (b.api.handle_events w))
      → IsCoherent s.usb
      → Holds (main_rounds b n s)
  unfolding main_rounds
  main_rounds-Holds zero s d c = c
  main_rounds-Holds (suc n) s d c =
      Holds-bind (poll b s) _ (poll-Holds b s d c) λ _ s' c'. main_rounds-Holds n _ d c'

  -- Only the first part.
  abbrev Ready : Option (Result (Unit {0}) × LinkSt W) → Type 0
  Ready none = Unit
  Ready (some (ok _, s)) = IsReady s
  Ready (some (err e, s)) = Unit

  boot-Ready : (s : LinkSt W) → Ready (boot b p s)
  unfolding boot
  boot-Ready s = ground (arith, new_link-IsSized)

  running :
      (n : ℕ) (o : Option (Result (Unit {0}) × LinkSt W))
      → ((w : W) → Delivers (b.api.handle_events w))
      → Ready o
      → Started n o
  running n none d h = tt
  running n (some (ok _, s)) d h = (h, main_rounds-Holds n s.sys d (h.coherent))
  running n (some (err e, s)) d h = tt

  -- A start that succeeds, whatever the libraries answer, leaves everything that the SPI task and
  -- the polling loop rely on: the link is initialised, so that the task's assertion holds, its
  -- buffers have their sizes, the driver and the power switch are set, and the driver's fields are
  -- coherent; and they stay coherent through any number of rounds of the polling loop that do not
  -- crash, if connection events come from devices with byte addresses.
  pub boot-Started :
      (n : ℕ) (s : LinkSt W) → ((w : W) → Delivers (b.api.handle_events w)) → Started n (boot b p s)
  boot-Started n s d = running n (boot b p s) d (boot-Ready s)

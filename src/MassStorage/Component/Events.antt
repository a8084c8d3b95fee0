-- ===== src/MassStorage/Component/Events.antt =====
-- The polling loop of src/usb_mass_storage/driver.rs over the component's own event handling
-- (src/usb_mass_storage/usb_host_msc/src/msc_host.c).
use bindkey_esp.Base.{ℕ, Option, none, some, List, Result, ok, err, Status}
use bindkey_esp.Base.Action.{Act, resume, pure}
use bindkey_esp.Base.Returns.{Returns}
use bindkey_esp.MassStorage.Types.{MscEvent, Board, Sys}
use bindkey_esp.MassStorage.Driver.{poll}
use bindkey_esp.MassStorage.Driver.Coherence.{IsCoherent, Holds, Delivers, poll-Holds}
use bindkey_esp.MassStorage.Component.{Component, component_api, handled_events, rejoin_driver}
use bindkey_esp.Msc.Types.{UsbHost, St}
use bindkey_esp.Msc.Client.Addresses.{AllHaveByteAddress, Reports, msc_host_handle_events-InByte}
use bindkey_esp.Msc.Vfs.{Fat}

-- The library's own events, the clock, and sleeping.
pub record Clock (W : Type 0) : Type 0 where
  pub lib_handle_events : Act W (Unit {0})
  pub instant_now : W → ℕ × W
  pub sleep_ms : ℕ → W → W

module _ {W : Type 0} (U : UsbHost W) (F : Fat W) (usb_host_install : Act W (Unit {0}))
    (depth ff_volumes : ℕ) (clock : Clock (Component W)) where
  -- The firmware's board with the component behind its interface.
  unfoldable pub whole_board : Board (Component W)
  unfolding component_api
  whole_board = record {
    api = component_api U F usb_host_install depth ff_volumes;
    lib_handle_events = clock.lib_handle_events;
    instant_now = clock.instant_now;
    sleep_ms = clock.sleep_ms;
  }

  rejoined-Delivers :
      (s : Component W) (o : Option (Result (Status × List MscEvent) × St W))
      → Returns (Reports U) o
      → Delivers (resume (rejoin_driver s o) (λ reply. pure reply.1))
  unfolding Returns
  rejoined-Delivers s none h = tt
  rejoined-Delivers s (some (ok reply, m)) h = h
  rejoined-Delivers s (some (err e, m)) h = tt

  -- One round of the firmware's polling loop over the component's own functions that does not
  -- crash keeps the driver's fields coherent, with the pending address and the retries in their
  -- bounds, if the USB Host Library gives new devices byte addresses.
  pub poll-whole_board :
      (s : Sys (Component W))
      → ((client : Option ℕ) (w : W) → AllHaveByteAddress (U.client_handle_events client w).1)
      → IsCoherent s.usb
      → Holds (poll whole_board s)
  unfolding whole_board handled_events
  poll-whole_board s bytes c =
      poll-Holds whole_board s
        (λ w. rejoined-Delivers w _ (msc_host_handle_events-InByte U bytes w.volumes.msc)) c

-- ===== src/MassStorage/Types.antt =====
-- The state of src/usb_mass_storage/driver.rs and callback.rs, and the interface of what it calls:
-- the C component behind the bindings (`MscApi`) and the board (`Board`).
use bindkey_esp.Base.{
  ℕ, ℤ, negsuc, pos, ◌≡◌, Bool, Option, none, some, List, ◌∷◌, length, Result, ok, Status,
}
use bindkey_esp.Base.Action.{Act}

-- `msc_host_event_t` as it reaches `handle_raw_event`.
pub data MscEvent : Type 0 where
  connected : (address : ℕ) → MscEvent
  disconnected : MscEvent
  other_event : ℕ → MscEvent

-- The calls of the C component. A device handle is an address; `read10` gives the status and what
-- the buffer holds afterwards, and `read_capacity` gives none if the outputs were not written.
pub record MscApi (W : Type 0) : Type 0 where
  pub host_install : Act W (Unit {0})
  pub msc_install : Act W (Unit {0})
  pub install_device : (address : ℕ) → Act W ℕ
  pub uninstall_device : ℕ → Act W (Unit {0})
  pub vfs_register : Option ℕ → Act W ℕ
  pub vfs_unregister : ℕ → Act W (Unit {0})
  -- The events that the callback receives while the call runs, first in front.
  pub handle_events : Act W (List MscEvent)
  pub unit_ready : ℕ → Act W Status
  pub read_capacity : ℕ → Act W (Status × Option (ℕ × ℕ))
  pub read10 : (handle : ℕ) (buffer : List ℕ) (lba nblocks block_size : ℕ) → Act W (Status × List ℕ)
  pub write10 : (handle : ℕ) (payload : List ℕ) (lba nblocks block_size : ℕ) → Act W Status
  -- A read writes into the buffer that it is given, and nowhere else.
  pub length-read10 :
      (handle : ℕ) (buffer : List ℕ) (lba nblocks block_size : ℕ) (w w' : W) (st : Status)
      (out : List ℕ)
      → read10 handle buffer lba nblocks block_size w ≡ some (ok (st, out), w')
      → length out ≡ length buffer

-- The USB Host Library's own events, the clock in milliseconds, and sleeping.
pub record Board (W : Type 0) : Type 0 where
  pub api : MscApi W
  pub lib_handle_events : Act W (Unit {0})
  pub instant_now : W → ℕ × W
  pub sleep_ms : ℕ → W → W

-- What the firmware does to the outside, newest first.
pub data Effect : Type 0 where
  gpio_reset : (pin : ℕ) → Effect
  gpio_output : (pin : ℕ) → Effect
  gpio_level : (pin level : ℕ) → Effect
  -- What the SPI slave was given to send in a transfer, which may have failed.
  spi_transfer : (nbytes : ℕ) → (sent : List ℕ) → Effect

pub record UsbMassStorage : Type 0 where
  pub pending_addr : ℤ
  pub retries_left : ℤ
  pub handle : Option ℕ
  pub vfs : Option ℕ
  pub block_size : ℕ
  pub block_count : ℕ
  pub no_device_since : Option ℕ

-- `UsbMassStorage::new`
unfoldable pub new_mass_storage : UsbMassStorage
new_mass_storage = record {
  pending_addr = negsuc 0;
  retries_left = pos 0;
  handle = none;
  vfs = none;
  block_size = 0;
  block_count = 0;
  no_device_since = none;
}

-- The statics and the driver behind `GLOBAL_MSC`.
pub record Sys (W : Type 0) : Type 0 where
  pub global_set : Bool
  pub tps_initialized : Bool
  pub usb : UsbMassStorage
  pub effects : List Effect
  pub world : W

module _ {W : Type 0} where
  abbrev pub rejoin : {A : Type 0} → Sys W → Option (Result A × W) → Option (Result A × Sys W)
  rejoin s none = none
  rejoin s (some (r, w)) = some (r, record s { world = w })

  -- A call out of the firmware changes the world alone.
  abbrev pub call : {A : Type 0} → Act W A → Act (Sys W) A
  call m s = rejoin s (m s.world)

  abbrev pub set_usb : UsbMassStorage → Act (Sys W) (Unit {0})
  set_usb u s = some (ok tt, record s { usb = u })

  abbrev pub effect : Effect → Act (Sys W) (Unit {0})
  effect e s = some (ok tt, record s { effects = e ∷ s.effects })

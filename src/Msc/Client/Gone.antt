-- ===== src/Msc/Client/Gone.antt =====
-- A device that has gone, in the client of src/usb_mass_storage/usb_host_msc/src/msc_host.c.
use bindkey_esp.Base.{
  ℕ, ◌≡◌, refl, Bool, true, false, Bool-cases, inl, inr, Option, some, List, [], ◌∷◌, ◌==◌,
  if◌then◌else◌, ok,
}
use bindkey_esp.Base.Action.{resume, pure}
use bindkey_esp.MassStorage.Types.{MscEvent, disconnected}
use bindkey_esp.Msc.Types.{MscDevice, MscDriver, dev_gone, UsbHost, St, load}
use bindkey_esp.Msc.Client.{search_queue, find_msc_device, gone_events, client_event_cb}

-- The addresses of the devices of a queue.
abbrev pub addresses : List (ℕ × MscDevice) → List ℕ
addresses [] = []
addresses ((d, device) ∷ q) = d ∷ addresses q

-- The devices stand in the memory at their addresses.
abbrev pub InMemory : (ℕ → Option MscDevice) → List (ℕ × MscDevice) → Type 0
InMemory heap [] = Unit
InMemory heap ((d, device) ∷ q) = (heap d ≡ some device) × InMemory heap q

-- Whether a device of the queue has the handle.
abbrev pub has_handle : ℕ → List (ℕ × MscDevice) → Bool
has_handle handle [] = false
has_handle handle ((d, device) ∷ q) =
    let later = has_handle handle q in if handle == device.handle then true else later

abbrev reported : Bool → List MscEvent
reported gone = if gone then disconnected ∷ [] else []

module _ {W : Type 0} (U : UsbHost W) where
  search_queue_lem :
      (handle : ℕ) (q : List (ℕ × MscDevice)) (s : St W)
      → InMemory s.heap q
      → resume (search_queue U handle (addresses q) s) (λ found. pure (gone_events U found))
        ≡ some (ok (reported (has_handle handle q)), s)
  unfolding search_queue load gone_events
  search_queue_lem handle [] s there = refl
  search_queue_lem handle ((d, device) ∷ q) s (here, there) =
      elim (Bool-cases (handle == device.handle)) [
        | inl found ↦ rw (here, found) refl
        | inr other ↦ rw (here, other) (search_queue_lem handle q s there)
      ]

  -- The user's callback hears of a device that has gone exactly when a device of the driver's
  -- queue has its handle, and then once; the driver and its memory are as before. The driver is
  -- installed and the devices of its queue are in the memory.
  pub client_event_cb_gone :
      (handle : ℕ) (q : List (ℕ × MscDevice)) (s : St W) (driver : MscDriver)
      → s.driver ≡ some driver
      → driver.devices_tailq ≡ addresses q
      → InMemory s.heap q
      → client_event_cb U (dev_gone handle) s
        ≡ some (ok (if has_handle handle q then disconnected ∷ [] else []), s)
  unfolding client_event_cb find_msc_device
  client_event_cb_gone handle q s driver installed queue there =
      rw (installed, queue)
        (search_queue_lem handle q
          (record s { driver = some (record driver { devices_tailq = addresses q }) }) there)

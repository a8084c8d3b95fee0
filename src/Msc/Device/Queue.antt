-- ===== src/Msc/Device/Queue.antt =====
-- The queue of devices of src/usb_mass_storage/usb_host_msc/src/msc_host.c, and the failure path of
-- `msc_host_install_device`.
use bindkey_esp.Base.{ℕ, ◌≡◌, ◌≢◌, refl, arith, none, some, List, [], ◌∷◌, ◌++◌, ◌==◌, false}
use bindkey_esp.Base.Action.{Act}
use bindkey_esp.Msc.Types.{UsbHost, St}
use bindkey_esp.Msc.Device.{stailq_remove, msc_host_install_device}

-- The address is not in the queue.
abbrev pub NotQueued : ℕ → List ℕ → Type 0
NotQueued d [] = Unit
NotQueued d (a ∷ rest) = (a ≢ d) × NotQueued d rest

-- Removing the device that was put at the end of the queue gives the queue back, with every other
-- device in its place.
pub stailq_remove_inserted :
    (d : ℕ) (q : List ℕ) → NotQueued d q → stailq_remove d (q ++ (d ∷ [])) ≡ some q
unfolding stailq_remove
stailq_remove_inserted d [] h = ground arith
stailq_remove_inserted d (a ∷ rest) h =
    let later = stailq_remove_inserted d rest h.1 in
    let other : (a == d) ≡ false = ground (arith, h.0) in rw (later, other) refl

module _ {W : Type 0} (U : UsbHost W) (recover : ℕ → Act (St W) (Unit {0})) where
  -- Installing a device while no driver is installed does not return the error that the code sets:
  -- for a device that could be allocated, the failure path reads the queue through the null
  -- pointer.
  pub msc_host_install_device_no_driver :
      (address : ℕ) (s : St W) (d : ℕ) (w : W)
      → U.calloc_device s.world ≡ (some d, w)
      → s.driver ≡ none
      → msc_host_install_device U recover address s ≡ none
  unfolding msc_host_install_device
  msc_host_install_device_no_driver address s d w allocated absent = rw (allocated, absent) refl

-- ===== src/Msc/Device/Install.antt =====
-- What an installation leaves behind in src/usb_mass_storage/usb_host_msc/src/msc_host.c.
use bindkey_esp.Base.{
  ℕ, ◌≡◌, refl, true, Option, none, some, [], ◌∷◌, ◌++◌, Result, EspErr, ok, err, Status, arith,
}
use bindkey_esp.Base.Action.{Act, resume, from_result, outcome, pure, throw}
use bindkey_esp.Msc.Types.{MscConfig, MscDriver, UsbHost, St, load, store, update}
use bindkey_esp.Msc.Transfer.Kept.{Leaves, Leaves-resume, Leaves-same}
use bindkey_esp.Msc.Scsi.{wait_for_ready_timeout_ms, msc_host_reset_recovery}
use bindkey_esp.Msc.Scsi.Kept.{
  scsi_cmd_inquiry-Leaves, msc_wait_for_ready_state-Leaves, scsi_cmd_read_capacity-Leaves,
  msc_host_reset_recovery-Leaves,
}
use bindkey_esp.Msc.Device.{
  zero_device, stailq_remove, release_device, msc_deinit_device, set_config, store_sizes,
  open_device, greet, set_up_device, register_device, install_steps, finish_install,
  msc_host_install_device,
}
use bindkey_esp.Msc.Device.Queue.{NotQueued, stailq_remove_inserted}

-- The device is gone, and the driver is as it was.
unfoldable pub Undone : {W A : Type 0} → MscDriver → ℕ → Option (Result A × St W) → Type 0
Undone driver d none = Unit
Undone driver d (some (r, s)) = (s.driver ≡ some driver) × (s.heap d ≡ none)

abbrev pub with_device : ℕ → MscDriver → MscDriver
with_device d driver = record driver { devices_tailq = driver.devices_tailq ++ (d ∷ []) }

module _ {W : Type 0} (U : UsbHost W) (recover : ℕ → Act (St W) (Unit {0})) where
  msc_deinit_device-Undone :
      (driver : MscDriver) (d : ℕ) (s : St W)
      → stailq_remove d (driver.devices_tailq ++ (d ∷ [])) ≡ some driver.devices_tailq
      → s.driver ≡ some (with_device d driver)
      → Undone driver d (msc_deinit_device U recover (some d) true s)
  unfolding msc_deinit_device release_device Undone load store
  msc_deinit_device-Undone driver d s found e = rw (e, found) (ground arith)

  module _ {q : Option MscDriver}
      (kept : (d : ℕ) (s : St W) → s.driver ≡ q → Leaves q (recover d s)) where
    set_config-Leaves :
        (d : ℕ) (c : Option (Status × MscConfig)) (s : St W)
        → s.driver ≡ q
        → Leaves q (set_config U recover d c s)
    unfolding set_config Leaves load store
    set_config-Leaves d c s e = ground arith

    store_sizes-Leaves :
        (d : ℕ) (sizes : Status × Option (ℕ × ℕ)) (s : St W)
        → s.driver ≡ q
        → Leaves q (store_sizes U recover d sizes s)
    unfolding store_sizes Leaves load store
    store_sizes-Leaves d sizes s e = ground arith

    -- The commands at the end of an installation.
    greet-Leaves : (d : ℕ) (s : St W) → s.driver ≡ q → Leaves q (greet U recover d s)
    unfolding greet
    greet-Leaves d s e =
        Leaves-resume _ _ (scsi_cmd_inquiry-Leaves U recover kept d s e) λ inquired s₁ e₁.
          Leaves-resume (from_result inquired s₁) _ (Leaves-same inquired s₁ e₁) λ _ s₂ e₂.
            Leaves-resume _ _
              (msc_wait_for_ready_state-Leaves U recover kept d wait_for_ready_timeout_ms s₂ e₂)
              λ _ s₃ e₃.
                Leaves-resume _ _ (scsi_cmd_read_capacity-Leaves U recover kept d s₃ e₃)
                  λ sizes s₄ e₄. store_sizes-Leaves d sizes s₄ e₄

    open_device-Leaves :
        (d address client : ℕ) (s : St W)
        → s.driver ≡ q
        → Leaves q (open_device U recover d address (some client) s)
    unfolding open_device set_config Leaves load store
    open_device-Leaves d address client s e = ground arith

    set_up_device-Leaves :
        (d address client : ℕ) (s : St W)
        → s.driver ≡ q
        → Leaves q (set_up_device U recover d address (some client) s)
    unfolding set_up_device
    set_up_device-Leaves d address client s e =
        Leaves-resume _ _ (open_device-Leaves d address client s e) λ _ s' e'. greet-Leaves d s' e'

-- What an installation of the device at address `d` leaves behind: with a handle, the queue with
-- the device at its end; with an error, the driver as before and no device.
unfoldable pub Atomic : {W : Type 0} → MscDriver → ℕ → Option (Result ℕ × St W) → Type 0
Atomic driver d none = Unit
Atomic driver d (some (ok h, s)) = s.driver ≡ some (with_device d driver)
Atomic driver d (some (err e, s)) = (s.driver ≡ some driver) × (s.heap d ≡ none)

thrown-Atomic :
    {W A : Type 0}
    → (driver : MscDriver) (d : ℕ) (x : EspErr) (o : Option (Result A × St W)) → Undone driver d o
    → Atomic driver d (resume (resume (outcome o) (λ _. pure tt)) (λ _. throw x))
unfolding Undone Atomic
thrown-Atomic driver d x none u = tt
thrown-Atomic driver d x (some (r, s)) u = u

module _ {W : Type 0} (U : UsbHost W) (depth : ℕ) where
  finish_install-Atomic :
      (driver : MscDriver) (d : ℕ) (o : Option (Result ℕ × St W))
      → stailq_remove d (driver.devices_tailq ++ (d ∷ [])) ≡ some driver.devices_tailq
      → Leaves (some (with_device d driver)) o
      → Atomic driver d
          (resume (outcome o) (finish_install U (msc_host_reset_recovery U depth) (some d)))
  unfolding finish_install Leaves Atomic
  finish_install-Atomic driver d none found h = tt
  finish_install-Atomic driver d (some (ok a, s)) found h = h
  finish_install-Atomic driver d (some (err x, s)) found h =
      thrown-Atomic driver d x _
        (msc_deinit_device-Undone U (msc_host_reset_recovery U depth) driver d s found h)

  -- An installation that does not crash, with a driver that is installed and registered and memory
  -- for the device that is not in its queue yet, either succeeds, with the device at the end of
  -- the queue and the driver otherwise as before, or returns an error, with the driver and its
  -- queue as before and the device freed; whatever the library and the device answer, and whatever
  -- recoveries and retries that takes.
  pub msc_host_install_device-Atomic :
      (address : ℕ) (s : St W) (driver : MscDriver) (client d : ℕ) (w : W)
      → s.driver ≡ some driver
      → driver.client_handle ≡ some client
      → U.calloc_device s.world ≡ (some d, w)
      → NotQueued d driver.devices_tailq
      → Atomic driver d (msc_host_install_device U (msc_host_reset_recovery U depth) address s)
  unfolding msc_host_install_device install_steps register_device store
  msc_host_install_device-Atomic address s driver client d w installed registered allocated fresh =
      let known = record driver { client_handle = some client } in
      let queued = record s {
        driver = some (with_device d known);
        heap = update s.heap d (some zero_device);
        world = w;
      } in
      rw (allocated, installed, registered)
        (finish_install-Atomic known d _ (stailq_remove_inserted d driver.devices_tailq fresh) (
          set_up_device-Leaves U (msc_host_reset_recovery U depth)
            (msc_host_reset_recovery-Leaves U depth) d address client queued refl))

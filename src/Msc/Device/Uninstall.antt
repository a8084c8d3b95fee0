-- ===== src/Msc/Device/Uninstall.antt =====
-- Uninstalling a device in src/usb_mass_storage/usb_host_msc/src/msc_host.c.
use bindkey_esp.Base.{
  ℕ, ◌≡◌, refl, ap, ◌∙◌, arith, true, false, Option, none, some, List, [], ◌∷◌, ◌==◌, Result, ok,
  err,
}
use bindkey_esp.Base.Action.{Act, resume, ◌>>◌}
use bindkey_esp.Msc.Types.{MscDevice, MscDriver, UsbHost, St, lib, load, store, update, rebuild}
use bindkey_esp.Msc.Device.{
  stailq_remove, release_device, msc_deinit_device, msc_host_uninstall_device,
}
use bindkey_esp.Msc.Device.Queue.{NotQueued}

-- An element that is not in the queue is not found.
stailq_remove_absent : (d : ℕ) (q : List ℕ) → NotQueued d q → stailq_remove d q ≡ none
unfolding stailq_remove
stailq_remove_absent d [] h = refl
stailq_remove_absent d (a ∷ rest) h =
    let later = stailq_remove_absent d rest h.1 in
    let other : (a == d) ≡ false = ground (arith, h.0) in rw (later, other) refl

-- The memory after an uninstallation that returns this.
abbrev pub heap_after : Result (Unit {0}) → ℕ → (ℕ → Option MscDevice) → ℕ → Option MscDevice
heap_after (ok _) d heap = update heap d none
heap_after (err e) d heap = heap

rebuild-world :
    {W A : Type 0} (s : St W) (w : W) (o : Option (Result A × W))
    → rebuild (record s { world = w }) o ≡ rebuild s o
rebuild-world s w none = refl
rebuild-world s w (some (r, w')) = refl

-- Calls of the library one after the other are one call.
resume-rebuild :
    {W : Type 0} (s : St W) (o : Option (Result (Unit {0}) × W)) (k : Act W (Unit {0}))
    (k' : Act (St W) (Unit {0}))
    → ((t : St W) → k' t ≡ lib k t)
    → resume (rebuild s o) (λ _. k') ≡ rebuild s (resume o (λ _. k))
resume-rebuild s none k k' same = refl
resume-rebuild s (some (ok _, w)) k k' same =
    same (record s { world = w }) ∙ rebuild-world s w (k w)
resume-rebuild s (some (err e, w)) k k' same = refl

module _ {W : Type 0} (U : UsbHost W) (recover : ℕ → Act (St W) (Unit {0})) where
  -- The calls that give a device back, up to the first that fails.
  abbrev pub give_back : Option ℕ → MscDevice → Act W (Unit {0})
  give_back client device = do
    U.interface_release client device.handle device.config.iface_num
    U.device_close client device.handle
    U.transfer_free device.xfer

  release_device_lem :
      (client : Option ℕ) (device : MscDevice) (s : St W)
      → release_device U recover client device false s ≡ rebuild s (give_back client device s.world)
  unfolding release_device
  release_device_lem client device s =
      resume-rebuild s (U.interface_release client device.handle device.config.iface_num s.world)
        (U.device_close client device.handle >> U.transfer_free device.xfer)
        (lib (U.device_close client device.handle) >> lib (U.transfer_free device.xfer))
        λ t.
          resume-rebuild t (U.device_close client device.handle t.world)
            (U.transfer_free device.xfer) (lib (U.transfer_free device.xfer)) λ u. refl

  -- The device is gone from the queue whatever is returned.
  abbrev pub dequeued : MscDriver → List ℕ → ℕ → Result (Unit {0}) → W → St W → St W
  dequeued driver rest d r w s = record s {
    driver = some (record driver { devices_tailq = rest });
    heap = heap_after r d s.heap;
    world = w;
  }

  -- Giving the device back and freeing it.
  released :
      (driver : MscDriver) (d : ℕ) (device : MscDevice) (rest : List ℕ) (s : St W)
      {r : Result (Unit {0})} {w : W}
      → give_back driver.client_handle device (U.delete_semaphore s.world) ≡ some (r, w)
      → (do release_device U recover driver.client_handle device false; store d none)
          (record s {
            driver = some (record driver { devices_tailq = rest });
            world = U.delete_semaphore s.world;
          })
        ≡ some (r, dequeued driver rest d r w s)
  unfolding store
  released driver d device rest s {r} {w} given =
      let t : St W = record s {
        driver = some (record driver { devices_tailq = rest });
        world = U.delete_semaphore s.world;
      } in
      ap (λ o. resume o (λ _. store d none))
        (release_device_lem driver.client_handle device t ∙ ap (rebuild t) given)
      ∙ freed r
    where
      freed :
          (r : Result (Unit {0}))
          → resume
              (rebuild
                (record s {
                  driver = some (record driver { devices_tailq = rest });
                  world = U.delete_semaphore s.world;
                })
                (some (r, w)))
              (λ _. store d none)
            ≡ some (r, dequeued driver rest d r w s)
      freed (ok tt) = refl
      freed (err e) = refl

  -- Uninstalling a device that is in the queue once, with its semaphore, takes it out of the queue
  -- and deletes the semaphore, and then releases its interface, closes it and frees its transfer
  -- up to the first of these calls that fails; where they return a result, that result is
  -- returned, the memory of the device is freed only if it is no error, nothing else of the
  -- driver's memory changes, and a second uninstallation of the device, also after an error, runs
  -- off the end of the queue.
  pub msc_host_uninstall_device_lem :
      (s : St W) (driver : MscDriver) (d : ℕ) (device : MscDevice) (rest : List ℕ)
      (r : Result (Unit {0})) (w : W)
      → s.driver ≡ some driver
      → s.heap d ≡ some device
      → device.transfer_done ≡ true
      → stailq_remove d driver.devices_tailq ≡ some rest
      → NotQueued d rest
      → give_back driver.client_handle device (U.delete_semaphore s.world) ≡ some (r, w)
      → (msc_host_uninstall_device U recover (some d) s ≡ some (r, dequeued driver rest d r w s))
        × (msc_host_uninstall_device U recover (some d) (dequeued driver rest d r w s) ≡ none)
  unfolding msc_host_uninstall_device msc_deinit_device load
  msc_host_uninstall_device_lem s driver d device rest r w installed present made found once given =
      (
        rw (installed, found, present, made) (released driver d device rest s given),
        rw (stailq_remove_absent d rest once) refl,
      )

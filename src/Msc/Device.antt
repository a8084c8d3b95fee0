-- ===== src/Msc/Device.antt =====
-- Devices in src/usb_mass_storage/usb_host_msc/src/msc_host.c: installing and uninstalling one, and
-- the sector access of an installed one.
pub mod Queue
pub mod Install
pub mod Uninstall
use mathlib.Core.Option
use bindkey_esp.Base.{
  ℕ, Bool, true, false, Option, none, some, List, [], ◌∷◌, ◌++◌, ◌==◌, if◌then◌else◌, Result, ok,
  err, EspErr, no_mem, invalid_arg, invalid_state, Status,
}
use bindkey_esp.Base.Action.{
  Act, pure, throw, crash, gets, modify, ignore, attempt, deref, from_result, ◌>>=◌, ◌>>◌,
}
use bindkey_esp.Msc.Types.{MscConfig, MscDevice, MscDriver, UsbHost, St, lib, load, store}
use bindkey_esp.Msc.Descriptors.{extract_config_from_descriptor}
use bindkey_esp.Msc.Bot.{Reply}
use bindkey_esp.Msc.Scsi.{
  scsi_cmd_read10, scsi_cmd_write10, scsi_cmd_inquiry, scsi_cmd_read_capacity,
  msc_wait_for_ready_state, wait_for_ready_timeout_ms,
}

abbrev pub default_xfer_size : ℕ
default_xfer_size = 64

-- `STAILQ_REMOVE`, which has to find the element: it runs off the end of the queue if it is not
-- there.
unfoldable pub stailq_remove : ℕ → List ℕ → Option (List ℕ)
stailq_remove d [] = none
stailq_remove d (a ∷ rest) =
    let later = Option.map (λ r. a ∷ r) (stailq_remove d rest) in
    if a == d then some rest else later

-- What `calloc` makes of a device.
abbrev pub zero_device : MscDevice
zero_device = record {
  transfer_done = false;
  handle = 0;
  xfer = none;
  config = record { bulk_in_mps = 0; bulk_in_ep = 0; bulk_out_ep = 0; iface_num = 0 };
  disk = record { block_size = 0; block_count = 0 };
}

module _ {W : Type 0} (U : UsbHost W) (recover : ℕ → Act (St W) (Unit {0})) where
  -- `*s_msc_driver`
  abbrev pub the_driver : Act (St W) MscDriver
  the_driver s = deref s.driver s

  abbrev pub set_driver : Option MscDriver → Act (St W) (Unit {0})
  set_driver v = modify (λ s. record s { driver = v })

  abbrev pub set_world : (W → W) → Act (St W) (Unit {0})
  set_world f = modify (λ s. record s { world = f s.world })

  -- A failed installation ignores what the calls return, and an uninstallation stops at an error.
  release_device : Option ℕ → MscDevice → Bool → Act (St W) (Unit {0})
  release_device client device true = do
    ignore (lib (U.interface_release client device.handle device.config.iface_num))
    ignore (lib (U.device_close client device.handle))
    ignore (lib (U.transfer_free device.xfer))
  release_device client device false = do
    lib (U.interface_release client device.handle device.config.iface_num)
    lib (U.device_close client device.handle)
    lib (U.transfer_free device.xfer)

  unfoldable pub msc_deinit_device : Option ℕ → Bool → Act (St W) (Unit {0})
  unfolding stailq_remove release_device load store
  msc_deinit_device none install_failed = throw invalid_state
  msc_deinit_device (some d) install_failed = do
    driver ← the_driver
    rest ← deref (stailq_remove d driver.devices_tailq)
    set_driver (some (record driver { devices_tailq = rest }))
    device ← load d
    if device.transfer_done then set_world U.delete_semaphore else pure tt
    release_device driver.client_handle device install_failed
    store d none

  set_config : ℕ → Option (Status × MscConfig) → Act (St W) (Unit {0})
  unfolding load store
  set_config d none = crash
  set_config d (some (status, cfg)) = do
    device ← load d
    store d (some (record device { config = cfg }))
    from_result status

  store_sizes : ℕ → Status × Option (ℕ × ℕ) → Act (St W) ℕ
  unfolding load store
  store_sizes d (err e, sizes) = throw e
  store_sizes d (ok _, none) = crash
  store_sizes d (ok _, some (block_size, block_count)) = do
    device ← load d
    store d (
        some
          (record device { disk = record { block_size = block_size; block_count = block_count } }))
    pure d

  -- The commands that end an installation.
  greet : ℕ → Act (St W) ℕ
  unfolding scsi_cmd_inquiry msc_wait_for_ready_state scsi_cmd_read_capacity store_sizes
  greet d = do
    inquired ← scsi_cmd_inquiry U recover d
    from_result inquired
    msc_wait_for_ready_state U recover d wait_for_ready_timeout_ms
    sizes ← scsi_cmd_read_capacity U recover d
    store_sizes d sizes

  -- The steps that open the device, up to the claim of its interface.
  open_device : ℕ → ℕ → Option ℕ → Act (St W) (Unit {0})
  unfolding load store extract_config_from_descriptor set_config
  open_device d address client = do
    made ← (λ s. let (b, w) = U.create_semaphore s.world in some (ok b, record s { world = w }))
    device ← load d
    store d (some (record device { transfer_done = made }))
    if made then pure tt else throw no_mem
    handle ← lib (U.device_open client address)
    fresh ← load d
    store d (some (record fresh { handle = handle }))
    descriptors ← lib (U.get_active_config_descriptor handle)
    blank ← load d
    set_config d (extract_config_from_descriptor U descriptors blank.config)
    xfer ← lib (U.transfer_alloc default_xfer_size)
    configured ← load d
    store d (some (record configured { xfer = some xfer }))
    lib (U.interface_claim client handle configured.config.iface_num)

  -- What follows the insertion into the queue.
  set_up_device : ℕ → ℕ → Option ℕ → Act (St W) ℕ
  unfolding open_device greet
  set_up_device d address client = do open_device d address client; greet d

  -- The critical section: the driver has to be there and registered.
  register_device : ℕ → Option MscDriver → Act (St W) (Option ℕ)
  register_device d none = throw invalid_state
  register_device d (some driver) = do
    client ← (λ s. registered driver.client_handle s)
    set_driver (some (record driver { devices_tailq = driver.devices_tailq ++ (d ∷ []) }))
    pure (some client)
    where
      registered : Option ℕ → Act (St W) ℕ
      registered none = throw invalid_state
      registered (some client) = pure client

  install_steps : Option ℕ → ℕ → Act (St W) ℕ
  unfolding register_device set_up_device store
  install_steps none address = throw no_mem
  install_steps (some d) address = do
    store d (some zero_device)
    driver ← gets (λ s. s.driver)
    client ← register_device d driver
    set_up_device d address client

  -- The result, after the label `fail` for an error.
  finish_install : Option ℕ → Result ℕ → Act (St W) ℕ
  unfolding msc_deinit_device
  finish_install d (ok handle) = pure handle
  finish_install d (err e) = do ignore (msc_deinit_device d true); throw e

  -- The address of the installed device.
  unfoldable pub msc_host_install_device : ℕ → Act (St W) ℕ
  unfolding install_steps finish_install
  msc_host_install_device address = do
    d ← (λ s. let (a, w) = U.calloc_device s.world in some (ok a, record s { world = w }))
    outcome ← attempt (install_steps d address)
    finish_install d outcome

  unfoldable pub msc_host_uninstall_device : Option ℕ → Act (St W) (Unit {0})
  unfolding msc_deinit_device
  msc_host_uninstall_device none = throw invalid_arg
  msc_host_uninstall_device (some d) = msc_deinit_device (some d) false

  unfoldable pub msc_host_read_sector : Option ℕ → ℕ → List ℕ → Act (St W) Reply
  unfolding load scsi_cmd_read10
  msc_host_read_sector none sector payload = pure (err invalid_arg, payload)
  msc_host_read_sector (some d) sector payload = do
    device ← load d
    scsi_cmd_read10 U recover d payload sector 1 device.disk.block_size

  unfoldable pub msc_host_write_sector : Option ℕ → ℕ → List ℕ → Act (St W) Status
  unfolding load scsi_cmd_write10
  msc_host_write_sector none sector payload = pure (err invalid_arg)
  msc_host_write_sector (some d) sector payload = do
    device ← load d
    scsi_cmd_write10 U recover d payload sector 1 device.disk.block_size

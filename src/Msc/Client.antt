-- ===== src/Msc/Client.antt =====
-- The client of the USB Host Library in src/usb_mass_storage/usb_host_msc/src/msc_host.c:
-- installing the driver, its events, and what it tells of a device. The tasks and the spin lock
-- are left out: each function runs as one step.
pub mod Addresses
pub mod Gone
use bindkey_esp.Base.{
  ℕ, ◌-◌, min, Bool, true, false, ◌&&◌, not, Option, none, some, List, [], ◌∷◌, ◌++◌, ◌==◌,
  if◌then◌else◌, length, take, overwrite, Result, ok, err, EspErr, fail, no_mem, invalid_arg,
  invalid_state, Status,
}
use bindkey_esp.Base.Action.{
  Act, pure, throw, crash, gets, modify, ignore, attempt, guard, deref, ◌>>=◌, ◌>>◌,
}
use bindkey_esp.MassStorage.Types.{MscEvent, connected, disconnected}
use bindkey_esp.Msc.Types.{
  MscDriver, Descriptor, ClientEvent, new_dev, dev_gone, other_client_event, UsbHost, St, lib, load,
}
use bindkey_esp.Msc.Descriptors.{find_msc_interface}

-- `msc_host_driver_config_t`; `callback` says that it is not null.
pub record DriverConfig : Type 0 where
  pub create_background_task : Bool
  pub task_priority : ℕ
  pub stack_size : ℕ
  pub callback : Bool

-- `msc_host_device_info_t`
pub record DeviceInfo : Type 0 where
  pub sector_count : ℕ
  pub sector_size : ℕ
  pub id_product : ℕ
  pub id_vendor : ℕ
  pub manufacturer : List ℕ
  pub product : List ℕ
  pub serial_number : List ℕ

abbrev pub msc_str_desc_size : ℕ
msc_str_desc_size = 32

abbrev pub is_some : {A : Type 0} → Option A → Bool
is_some none = false
is_some (some a) = true

abbrev pub is_empty : List ℕ → Bool
is_empty [] = true
is_empty (a ∷ rest) = false

-- What the array `dest` holds afterwards.
unfoldable pub copy_string_desc : List ℕ → Option (List ℕ) → List ℕ
copy_string_desc dest none = overwrite 0 (0 ∷ []) dest
copy_string_desc dest (some units) =
    let len = min (length units) (msc_str_desc_size - 1) in
    overwrite 0 (take len units ++ (0 ∷ [])) dest

module _ {W : Type 0} (U : UsbHost W) where
  -- `*s_msc_driver`
  abbrev current_driver : Act (St W) MscDriver
  current_driver s = deref s.driver s

  abbrev change_driver : Option MscDriver → Act (St W) (Unit {0})
  change_driver v = modify (λ s. record s { driver = v })

  abbrev change_world : (W → W) → Act (St W) (Unit {0})
  change_world f = modify (λ s. record s { world = f s.world })

  abbrev attempt_alloc : (W → Bool × W) → Act (St W) Bool
  attempt_alloc f s = let (b, w) = f s.world in some (ok b, record s { world = w })

  -- `ESP_ERROR_CHECK`, which aborts.
  error_check : Status → Act (St W) (Unit {0})
  error_check (ok _) = pure tt
  error_check (err e) = crash

  has_msc_interface : Result (List Descriptor) → Bool
  unfolding find_msc_interface
  has_msc_interface (err e) = false
  has_msc_interface (ok descriptors) = is_some (find_msc_interface U descriptors)

  check_opened : Option ℕ → Result ℕ → Act (St W) Bool
  unfolding has_msc_interface
  check_opened client (err e) = pure false
  check_opened client (ok device) = do
    descriptors ← attempt (lib (U.get_active_config_descriptor device))
    ignore (lib (U.device_close client device))
    pure (has_msc_interface descriptors)

  unfoldable pub is_mass_storage_device : ℕ → Act (St W) Bool
  unfolding check_opened
  is_mass_storage_device address = do
    driver ← current_driver
    device ← attempt (lib (U.device_open driver.client_handle address))
    check_opened driver.client_handle device

  -- The first device of the queue that has the handle.
  search_queue : ℕ → List ℕ → Act (St W) (Option ℕ)
  unfolding load
  search_queue handle [] = pure none
  search_queue handle (d ∷ rest) = do
    device ← load d
    if handle == device.handle then pure (some d) else search_queue handle rest

  unfoldable pub find_msc_device : ℕ → Act (St W) (Option ℕ)
  unfolding search_queue
  find_msc_device handle = do driver ← current_driver; search_queue handle driver.devices_tailq

  gone_events : Option ℕ → List MscEvent
  gone_events none = []
  gone_events (some d) = disconnected ∷ []

  -- The events that the user's callback receives.
  unfoldable pub client_event_cb : ClientEvent → Act (St W) (List MscEvent)
  unfolding is_mass_storage_device find_msc_device gone_events
  client_event_cb (new_dev address) = do
    is_msc ← is_mass_storage_device address
    pure (if is_msc then connected address ∷ [] else [])
  client_event_cb (dev_gone handle) = do found ← find_msc_device handle; pure (gone_events found)
  client_event_cb other_client_event = pure []

  callbacks : List ClientEvent → Act (St W) (List MscEvent)
  unfolding client_event_cb
  callbacks [] = pure []
  callbacks (event ∷ events) = do
    first ← client_event_cb event
    later ← callbacks events
    pure (first ++ later)

  handle_client_events : Option MscDriver → Act (St W) (Status × List MscEvent)
  unfolding callbacks
  handle_client_events none = pure (err invalid_state, [])
  handle_client_events (some driver) = do
    change_driver (some (record driver { event_handling_started = true }))
    (status, events) ← (λ s.
        let (r, events, w) = U.client_handle_events driver.client_handle s.world in
        some (ok (r, events), record s { world = w }))
    delivered ← callbacks events
    now ← current_driver
    if not now.end_client_event_handling
        then pure (status, delivered)
        else do change_world U.give_all_events; pure (err fail, delivered)

  unfoldable pub msc_host_handle_events : Act (St W) (Status × List MscEvent)
  unfolding handle_client_events
  msc_host_handle_events = do driver ← gets (λ s. s.driver); handle_client_events driver

  -- The label `fail` of the installation.
  install_failed : Option ℕ → Bool → EspErr → Act (St W) (Unit {0})
  install_failed client semaphore e = do
    change_driver none
    ignore (lib (U.client_deregister client))
    if semaphore then change_world U.delete_semaphore else pure tt
    throw e

  after_register : DriverConfig → Result ℕ → Act (St W) (Unit {0})
  unfolding install_failed
  after_register config (err e) = install_failed none true e
  after_register config (ok client) = do
    other ← gets (λ s. s.driver)
    if is_some other then install_failed (some client) true invalid_state else do
      change_driver (
          some (record {
            client_handle = some client;
            all_events_handled = true;
            end_client_event_handling = false;
            event_handling_started = false;
            devices_tailq = [];
          }))
      if not config.create_background_task then pure tt else do
        created ← attempt_alloc (U.create_task config.stack_size config.task_priority)
        if created then pure tt else install_failed (some client) true no_mem

  unfoldable pub msc_host_install : Option DriverConfig → Act (St W) (Unit {0})
  unfolding install_failed after_register
  msc_host_install none = throw invalid_arg
  msc_host_install (some config) = do
    guard config.callback invalid_arg
    guard (not (config.create_background_task && config.stack_size == 0)) invalid_arg
    guard (not (config.create_background_task && config.task_priority == 0)) invalid_arg
    present ← gets (λ s. is_some s.driver)
    guard (not present) invalid_state
    allocated ← attempt_alloc U.calloc_driver
    guard allocated no_mem
    semaphore ← attempt_alloc U.create_semaphore
    if not semaphore
        then install_failed none false no_mem
        else do client ← attempt (lib U.client_register); after_register config client

  uninstall_driver : Option MscDriver → Act (St W) (Unit {0})
  unfolding error_check
  uninstall_driver none = throw invalid_state
  uninstall_driver (some driver) = do
    guard (not driver.end_client_event_handling) invalid_state
    guard (is_empty driver.devices_tailq) invalid_state
    change_driver (some (record driver { end_client_event_handling = true }))
    if not driver.event_handling_started then pure tt else do
      unblocked ← attempt (lib (U.client_unblock driver.client_handle))
      error_check unblocked
      change_world U.take_all_events
    change_world U.delete_semaphore
    deregistered ← attempt (lib (U.client_deregister driver.client_handle))
    error_check deregistered
    change_driver none

  unfoldable pub msc_host_uninstall : Act (St W) (Unit {0})
  unfolding uninstall_driver
  msc_host_uninstall = do driver ← gets (λ s. s.driver); uninstall_driver driver

  -- The descriptor and the strings of the device, with what the driver knows of its disk.
  unfoldable pub msc_host_get_device_info : Option ℕ → Option DeviceInfo → Act (St W) DeviceInfo
  unfolding load copy_string_desc
  msc_host_get_device_info none info = throw invalid_arg
  msc_host_get_device_info (some d) none = throw invalid_arg
  msc_host_get_device_info (some d) (some info) = do
    device ← load d
    told ← lib (U.device_info device.handle)
    pure (record {
      sector_count = device.disk.block_count;
      sector_size = device.disk.block_size;
      id_product = told.id_product;
      id_vendor = told.id_vendor;
      manufacturer = copy_string_desc info.manufacturer told.manufacturer;
      product = copy_string_desc info.product told.product;
      serial_number = copy_string_desc info.serial_number told.serial_num;
    })

-- ===== src/MassStorage/Driver.antt =====
-- src/usb_mass_storage/driver.rs and callback.rs, and src/power_switch/tps.rs: connection events,
-- opening with retries, the polling loop's body with its watchdog, and the power switch.
pub mod Coherence
use bindkey_esp.Base.{
  ℕ, ◌+◌, ◌-◌, ◌/◌, ◌%◌, ◌^◌, ℤ, pos, negsuc, pos_part, ◌-ℤ◌, ltb_ℤ, leb_ℤ, Bool, true, false, ◌&&◌,
  ◌||◌, not, Option, none, some, List, [], ◌∷◌, ◌==◌, leb, if◌then◌else◌, Result, ok, err, EspErr,
  fail, invalid_state,
}
use bindkey_esp.Base.Action.{
  Act, pure, throw, gets, attempt, ignore, modify, ◌>>=◌, ◌>>◌, from_result,
}
use bindkey_esp.MassStorage.Types.{
  MscEvent, connected, disconnected, other_event, MscApi, Board, Effect, gpio_reset, gpio_output,
  gpio_level, UsbMassStorage, Sys, call, set_usb, effect,
}
use bindkey_esp.MassStorage.BlockDevice.{bd_refresh_capacity}

-- `RETRY_COUNT` and `DEBUG_VFS`.
abbrev pub retry_count : ℕ
retry_count = 3

abbrev pub debug_vfs : ℕ
debug_vfs = 0

-- `EN_BARRE_GPIO`
abbrev pub en_barre_gpio : ℕ
en_barre_gpio = 1

-- `addr as u8` of an `i32` that is not negative.
abbrev pub as_u8 : ℤ → ℕ
as_u8 a = pos_part a % 2 ^ 8

module _ {W : Type 0} (b : Board W) where
  sleep : ℕ → Act (Sys W) (Unit {0})
  sleep ms s = some (ok tt, record s { world = b.sleep_ms ms s.world })

  now : Act (Sys W) ℕ
  now s = let (t, w) = b.instant_now s.world in some (ok t, record s { world = w })

  -- `TPSguard::new`, then `set_global_tps`.
  unfoldable pub tps_new : Act (Sys W) (Unit {0})
  tps_new = do
    effect (gpio_reset en_barre_gpio)
    effect (gpio_output en_barre_gpio)
    effect (gpio_level en_barre_gpio 0)

  unfoldable pub set_global_tps : Act (Sys W) (Unit {0})
  set_global_tps = modify (λ s. record s { tps_initialized = true })

  unfoldable pub power_cycle_usb : Act (Sys W) (Unit {0})
  unfolding sleep
  power_cycle_usb = do
    ready ← gets (λ s. s.tps_initialized)
    if not ready
        then pure tt
        else do effect (gpio_level en_barre_gpio 1); sleep 2000; effect (gpio_level en_barre_gpio 0)

  -- `set_global_mass_storage`
  unfoldable pub set_global_mass_storage : Act (Sys W) (Unit {0})
  set_global_mass_storage = modify (λ s. record s { global_set = true })

  unfoldable pub init_host : Act (Sys W) (Unit {0})
  unfolding sleep
  init_host = do sleep 500; call b.api.host_install; sleep 200; sleep 100; call b.api.msc_install

  unmount : Option ℕ → Act (Sys W) (Unit {0})
  unmount none = pure tt
  unmount (some v) = do
    ignore (call (b.api.vfs_unregister v))
    u ← gets (λ s. s.usb)
    set_usb (record u { vfs = none })

  unfoldable pub unmount_vfs : Act (Sys W) (Unit {0})
  unfolding unmount
  unmount_vfs = do u ← gets (λ s. s.usb); unmount u.vfs

  close : Option ℕ → Act (Sys W) (Unit {0})
  close none = pure tt
  close (some h) = do
    ignore (call (b.api.uninstall_device h))
    u ← gets (λ s. s.usb)
    set_usb (record u { handle = none })

  unfoldable pub close_device : Act (Sys W) (Unit {0})
  unfolding close
  close_device = do u ← gets (λ s. s.usb); close u.handle

  unfoldable pub handle_raw_event : MscEvent → Act (Sys W) (Unit {0})
  unfolding unmount_vfs close_device
  handle_raw_event (connected address) = do
    u ← gets (λ s. s.usb)
    set_usb (record u {
      pending_addr = pos address;
      retries_left = pos retry_count;
      handle = none;
      vfs = none;
      block_size = 0;
      block_count = 0;
    })
  handle_raw_event disconnected = do
    unmount_vfs
    close_device
    u ← gets (λ s. s.usb)
    set_usb (record u {
      pending_addr = negsuc 0;
      retries_left = pos 0;
      block_size = 0;
      block_count = 0;
    })
  handle_raw_event (other_event n) = pure tt

  -- `msc_event_cb` with an event that is not null.
  unfoldable pub msc_event_cb : MscEvent → Act (Sys W) (Unit {0})
  unfolding handle_raw_event
  msc_event_cb event = do
    is_set ← gets (λ s. s.global_set)
    if is_set then handle_raw_event event else pure tt

  -- The callbacks that run inside `msc_host_handle_events`.
  unfoldable pub deliver : List MscEvent → Act (Sys W) (Unit {0})
  unfolding msc_event_cb
  deliver [] = pure tt
  deliver (event ∷ events) = do msc_event_cb event; deliver events

  mounted : Result ℕ → Act (Sys W) Bool
  mounted (err e) = pure false
  mounted (ok v) = do u ← gets (λ s. s.usb); set_usb (record u { vfs = some v }); pure true

  -- Listing the files afterwards only logs.
  unfoldable pub mount_vfs : Act (Sys W) Bool
  unfolding mounted
  mount_vfs = do
    u ← gets (λ s. s.usb)
    registered ← attempt (call (b.api.vfs_register u.handle))
    mounted registered

  mount_for_debug : Act (Sys W) (Unit {0})
  unfolding mount_vfs close_device
  mount_for_debug = do
    done ← mount_vfs
    if done then pure tt else do
      close_device
      u ← gets (λ s. s.usb)
      set_usb (record u { retries_left = u.retries_left -ℤ pos 1 })

  opened : Result ℕ → Act (Sys W) (Unit {0})
  unfolding bd_refresh_capacity mount_for_debug
  opened (ok h) = do
    u ← gets (λ s. s.usb)
    set_usb (record u { handle = some h; pending_addr = negsuc 0; retries_left = pos 0 })
    ignore (bd_refresh_capacity b.api)
    if debug_vfs == 1 then mount_for_debug else pure tt
  opened (err invalid_state) = do
    u ← gets (λ s. s.usb)
    set_usb (record u { retries_left = u.retries_left -ℤ pos 1 })
  opened (err e) = do
    u ← gets (λ s. s.usb)
    set_usb (record u { pending_addr = negsuc 0; retries_left = pos 0 })

  unfoldable pub try_open_and_mount : Act (Sys W) (Unit {0})
  unfolding opened
  try_open_and_mount = do
    u ← gets (λ s. s.usb)
    if ltb_ℤ u.pending_addr (pos 0) || leb_ℤ u.retries_left (pos 0) then pure tt else do
      installed ← attempt (call (b.api.install_device (as_u8 u.pending_addr)))
      opened installed

  set_since : Option ℕ → Act (Sys W) (Unit {0})
  set_since since = do u ← gets (λ s. s.usb); set_usb (record u { no_device_since = since })

  -- With no device for two seconds or more the drive is power cycled.
  waiting : ℕ → Option ℕ → Act (Sys W) (Unit {0})
  unfolding set_since now power_cycle_usb
  waiting t none = set_since (some t)
  waiting t (some since) = do
    later ← now
    if not (leb 2 ((later - since) / 1000))
        then pure tt
        else do power_cycle_usb; again ← now; set_since (some again)

  is_null : Option ℕ → Bool
  is_null none = true
  is_null (some h) = false

  unfoldable pub watchdog : Act (Sys W) (Unit {0})
  unfolding waiting is_null
  watchdog = do
    u ← gets (λ s. s.usb)
    if not (is_null u.handle && ltb_ℤ u.pending_addr (pos 0))
        then set_since none
        else do t ← now; waiting t u.no_device_since

  unfoldable pub events_of : Result (List MscEvent) → List MscEvent
  events_of (ok events) = events
  events_of (err e) = []

  unfoldable pub poll : Act (Sys W) (Unit {0})
  unfolding events_of deliver try_open_and_mount watchdog
  poll = do
    ignore (call b.lib_handle_events)
    handled ← attempt (call b.api.handle_events)
    deliver (events_of handled)
    try_open_and_mount
    watchdog

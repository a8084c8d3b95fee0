-- ===== src/Tasks/Capacity.antt =====
-- A READ CAPACITY of the SPI task (src/usb_mass_storage/block_device.rs) during which the drive is
-- disconnected.
use mathlib.Core.Option
use bindkey_esp.Base.{ℕ, ◌≡◌, arith, none, some, Option, Result, ok}
use bindkey_esp.Base.Action.{Act, pure, gets, ignore, ◌>>=◌, ◌>>◌}
use bindkey_esp.MassStorage.Types.{Board, disconnected, Sys, call}
use bindkey_esp.MassStorage.BlockDevice.{open_handle, store_capacity, bd_refresh_capacity}
use bindkey_esp.MassStorage.Driver.{handle_raw_event}

module _ {W : Type 0} (b : Board W) where
  -- `bd_refresh_capacity` with what another task does while the command runs.
  unfoldable pub refresh_during : Act (Sys W) (Unit {0}) → Act (Sys W) (ℕ × ℕ)
  unfolding store_capacity
  refresh_during other = do
    u ← gets (λ s. s.usb)
    h ← open_handle u.handle
    outcome ← call (b.api.read_capacity h)
    ignore other
    store_capacity b.api outcome

  -- Where no other task runs, it is the code's own `bd_refresh_capacity`.
  refresh_during-nothing : (s : Sys W) → refresh_during (pure tt) s ≡ bd_refresh_capacity b.api s
  unfolding refresh_during bd_refresh_capacity
  refresh_during-nothing s = ground arith

  -- A drive that is disconnected while the SPI task reads its capacity leaves that capacity behind:
  -- with no file system mounted, a device whose command succeeds and an uninstall that returns, no
  -- device is open afterwards, and yet the driver has the sizes of the drive that is gone.
  pub refresh_during_disconnect :
      (s : Sys W) (h size count : ℕ) {uninstalled : Result (Unit {0})} {w₁ w₂ : W}
      → s.usb.handle ≡ some h
      → s.usb.vfs ≡ none
      → b.api.read_capacity h s.world ≡ some (ok (ok tt, some (size, count)), w₁)
      → b.api.uninstall_device h w₁ ≡ some (uninstalled, w₂)
      → Option.map {B = Option ℕ × ℕ × ℕ}
          (λ r. (r.1.usb.handle, r.1.usb.block_size, r.1.usb.block_count))
          (refresh_during (handle_raw_event b disconnected) s)
        ≡ some (none, size, count)
  unfolding refresh_during handle_raw_event
  refresh_during_disconnect s h size count {uninstalled} there unmounted answered gone =
      ground (arith, there, unmounted, answered, gone)

-- ===== src/MassStorage/BlockDevice.antt =====
-- src/usb_mass_storage/block_device.rs: the block-device operations on the open drive.
pub mod Guards
pub mod Store
use bindkey_esp.Base.{
  ℕ, ◌+◌, ◌-◌, ◌*◌, ◌%◌, ◌^◌, ◌≤◌, min, Bool, ◌||◌, not, Option, none, some, List, ◌==◌, ltb, leb,
  if◌then◌else◌, length, ok, err, invalid_arg, invalid_state, Result, Status,
}
use bindkey_esp.Base.Action.{Act, pure, throw, guard, gets, attempt, from_result, ◌>>=◌, ◌>>◌}
use bindkey_esp.MassStorage.Types.{MscApi, UsbMassStorage, Sys, call, set_usb}

pub data BlockDevStatus : Type 0 where
  not_present not_ready ready : BlockDevStatus

abbrev pub capacity_unknown : UsbMassStorage → Bool
capacity_unknown u = u.block_size == 0 || u.block_count == 0

-- `u32::saturating_add`
abbrev pub saturating_add : ℕ → ℕ → ℕ
saturating_add a b = min (a + b) (2 ^ 32 - 1)

-- A handle that may be null, as an error or the handle.
abbrev pub open_handle : {W : Type 0} → Option ℕ → Act (Sys W) ℕ
open_handle none = throw invalid_state
open_handle (some h) = pure h

module _ {W : Type 0} (api : MscApi W) where
  readiness : Status → BlockDevStatus
  readiness (ok _) = ready
  readiness (err e) = not_ready

  probe : UsbMassStorage → Option ℕ → Act (Sys W) BlockDevStatus
  unfolding readiness
  probe u none = pure not_present
  probe u (some h) =
      if capacity_unknown u
      then pure not_ready
      else do status ← call (api.unit_ready h); pure (readiness status)

  unfoldable pub bd_status : Act (Sys W) BlockDevStatus
  unfolding probe
  bd_status = do u ← gets (λ s. s.usb); probe u u.handle

  -- The outputs start at 0.
  pub written : Option (ℕ × ℕ) → ℕ × ℕ
  written none = (0, 0)
  written (some sizes) = sizes

  unfoldable pub store_capacity : Status × Option (ℕ × ℕ) → Act (Sys W) (ℕ × ℕ)
  unfolding written
  store_capacity (err e, outputs) = throw e
  store_capacity (ok _, outputs) = do
    let (bs, bc) = written outputs
    u ← gets (λ s. s.usb)
    set_usb (record u { block_size = bs; block_count = bc })
    pure (bs, bc)

  unfoldable pub bd_refresh_capacity : Act (Sys W) (ℕ × ℕ)
  unfolding store_capacity
  bd_refresh_capacity = do
    u ← gets (λ s. s.usb)
    h ← open_handle u.handle
    outcome ← call (api.read_capacity h)
    store_capacity outcome

  -- The checks that a read and a write share; `bytes` is the length of the caller's slice. The
  -- product does not overflow `usize` where the checks before it let it be computed for a chunk.
  unfoldable pub check_request : (lba nblocks bytes : ℕ) → Act (Sys W) (UsbMassStorage × ℕ)
  check_request lba nblocks bytes = do
    u ← gets (λ s. s.usb)
    h ← open_handle u.handle
    guard (not (nblocks == 0)) invalid_arg
    guard (not (capacity_unknown u)) invalid_state
    guard (leb (saturating_add lba nblocks) u.block_count) invalid_arg
    guard (bytes == nblocks * u.block_size % 2 ^ 32) invalid_arg
    pure (u, h)

  -- The result and what the slice `out` holds afterwards.
  unfoldable pub read_call :
      UsbMassStorage × ℕ → (lba nblocks : ℕ) → List ℕ → Act (Sys W) (Status × List ℕ)
  read_call (u, h) lba nblocks out = call (api.read10 h out lba nblocks u.block_size)

  read_checked :
      Result (UsbMassStorage × ℕ) → (lba nblocks : ℕ) → List ℕ → Act (Sys W) (Status × List ℕ)
  unfolding read_call
  read_checked (err e) lba nblocks out = pure (err e, out)
  read_checked (ok target) lba nblocks out = read_call target lba nblocks out

  unfoldable pub bd_read_blocks : (lba nblocks : ℕ) → List ℕ → Act (Sys W) (Status × List ℕ)
  unfolding check_request read_checked
  bd_read_blocks lba nblocks out = do
    checked ← attempt (check_request lba nblocks (length out))
    read_checked checked lba nblocks out

  unfoldable pub bd_write_blocks : (lba nblocks : ℕ) → List ℕ → Act (Sys W) (Unit {0})
  unfolding check_request
  bd_write_blocks lba nblocks payload = do
    (u, h) ← check_request lba nblocks (length payload)
    status ← call (api.write10 h payload lba nblocks u.block_size)
    from_result status

  unfoldable pub bd_flush : Act (Sys W) (Unit {0})
  bd_flush = do u ← gets (λ s. s.usb); _ ← open_handle u.handle; pure tt

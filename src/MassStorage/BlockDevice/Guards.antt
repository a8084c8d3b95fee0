-- ===== src/MassStorage/BlockDevice/Guards.antt =====
-- What the checks of src/usb_mass_storage/block_device.rs keep from the drive.
use bindkey_esp.Base.{
  ℕ, ◌+◌, ◌-◌, ◌*◌, ◌^◌, ◌≤◌, ◌<◌, ◌≡◌, refl, arith, Option, none, some, List, length, ok, err,
  EspErr, invalid_arg, invalid_state, ◌==◌, if◌then◌else◌,
}
use bindkey_esp.MassStorage.Types.{MscApi, Sys, UsbMassStorage, call}
use bindkey_esp.Base.Action.{from_result, ◌>>=◌}
use bindkey_esp.MassStorage.BlockDevice.{
  bd_read_blocks, bd_write_blocks, check_request, capacity_unknown,
}

-- A request that the drive can serve.
pub record Servable {W : Type 0} (s : Sys W) (h lba nblocks bytes : ℕ) : Type 0 where
  pub open_device : s.usb.handle ≡ some h
  pub some_blocks : 0 < nblocks
  pub size_known : 0 < s.usb.block_size
  pub on_drive : lba + nblocks ≤ s.usb.block_count
  pub count_fits : s.usb.block_count < 2 ^ 32
  pub exact : bytes ≡ nblocks * s.usb.block_size
  pub addressable : nblocks * s.usb.block_size < 2 ^ 32

-- The error for sectors that are not on the drive: a null handle or an unknown capacity come first.
abbrev pub refusal : UsbMassStorage → (nblocks : ℕ) → EspErr
refusal u nblocks = no_handle u.handle
  where
    no_handle : Option ℕ → EspErr
    no_handle none = invalid_state
    no_handle (some h) =
        if nblocks == 0
        then invalid_arg
        else if capacity_unknown u
        then invalid_state
        else invalid_arg

module _ {W : Type 0} (api : MscApi W) where
  check_request-Servable :
      (s : Sys W) {h lba nblocks bytes : ℕ}
      → Servable s h lba nblocks bytes
      → check_request api lba nblocks bytes s ≡ some (ok (s.usb, h), s)
  unfolding check_request
  check_request-Servable s v = rw (v.open_device) (
      ground (arith, v.some_blocks, v.size_known, v.on_drive, v.count_fits, v.exact, v.addressable))

  -- A request that the drive can serve, for sectors on the drive and a buffer of exactly their
  -- bytes, is one command to the open device with the request's own sectors and the drive's block
  -- size, for a write and for a read, and the caller gets that command's answer.
  pub bd_blocks-Servable :
      (s : Sys W) {h lba nblocks : ℕ} (payload : List ℕ)
      → Servable s h lba nblocks (length payload)
      → (bd_write_blocks api lba nblocks payload s
          ≡ (call (api.write10 h payload lba nblocks s.usb.block_size) >>= from_result) s)
        × (bd_read_blocks api lba nblocks payload s
            ≡ call (api.read10 h payload lba nblocks s.usb.block_size) s)
  unfolding bd_write_blocks bd_read_blocks
  bd_blocks-Servable s payload v =
      (rw (check_request-Servable s v) refl, rw (check_request-Servable s v) refl)

  check_request_off_drive :
      (s : Sys W) (lba nblocks bytes : ℕ)
      → s.usb.block_count < 2 ^ 32 - 1
      → s.usb.block_count < lba + nblocks
      → check_request api lba nblocks bytes s ≡ some (err (refusal s.usb nblocks), s)
  unfolding check_request
  check_request_off_drive s lba nblocks bytes known beyond = ground (arith, known, beyond)

  -- A request whose sectors do not all lie on the drive, for a drive of less than 2 ^ 32 - 1
  -- blocks, is refused, whatever the component behind the interface would do: a write and a read
  -- return the error of the first check that fails, which is never success, the caller's buffer is
  -- as before, and neither changes anything, the drive's own state included.
  pub bd_blocks_off_drive :
      (s : Sys W) (lba nblocks : ℕ) (payload : List ℕ)
      → s.usb.block_count < 2 ^ 32 - 1
      → s.usb.block_count < lba + nblocks
      → (bd_write_blocks api lba nblocks payload s ≡ some (err (refusal s.usb nblocks), s))
        × (bd_read_blocks api lba nblocks payload s
            ≡ some (ok (err (refusal s.usb nblocks), payload), s))
  unfolding bd_write_blocks bd_read_blocks
  bd_blocks_off_drive s lba nblocks payload known beyond = (
    rw (check_request_off_drive s lba nblocks (length payload) known beyond) refl,
    rw (check_request_off_drive s lba nblocks (length payload) known beyond) refl,
  )

-- ===== src/Base/Esp.antt =====
-- `esp_err_t`: a call returns `ESP_OK`, the constructor `ok`, or one of the codes below. The codes
-- that the firmware and the MSC component name have a constructor each; any other code that a
-- library may return is `other`.
use Prim.Native.Nat.{ℕ, ◌^◌, ◌<◌}
use mathlib.Core.Logic.{◌≢◌}

pub data EspErr : Type 0 where
  fail no_mem invalid_arg invalid_state invalid_size not_supported timeout invalid_crc : EspErr
  msc_mount_failed msc_format_failed msc_internal msc_stall : EspErr
  other : ℕ → EspErr

pub data Result {ℓ} (A : Type ℓ) : Type ℓ where
  ok : A → Result A
  err : EspErr → Result A

-- `esp_err_t` itself.
abbrev pub Status : Type 0
Status = Result (Unit {0})

-- The numeric codes of ESP-IDF, as the 32-bit patterns that `status as u32` puts on the wire.
pub record EspCodes : Type 0 where
  pub esp_ok : ℕ
  pub code : EspErr → ℕ
  pub ok_fits : esp_ok < 2 ^ 32
  pub code_fits : (e : EspErr) → code e < 2 ^ 32
  pub code_ne_ok : (e : EspErr) → code e ≢ esp_ok

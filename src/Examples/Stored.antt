-- ===== src/Examples/Stored.antt =====
-- A session of block requests with the component.
use mathlib.Core.Option
use bindkey_esp.Base.{ℕ, ◌+◌, ◌*◌, ◌<◌, ◌≤◌, ◌≡◌, refl, arith, some, [], ◌∷◌, ok}
use bindkey_esp.MassStorage.BlockDevice.Store.{
  session, session-answers, read_request, write_request,
}
use bindkey_esp.MassStorage.BlockDevice.Guards.{Servable}
use bindkey_esp.Examples.Driver.{two_blocks}
use bindkey_esp.Examples.Stick.Whole.{
  stick_api, stick_api-IsDrive, stick_disk, StickUp, stick_component-IsUp, stick_drive,
}

servable :
    (lba n bytes : ℕ)
    → 0 < n
    → lba + n ≤ 8192
    → bytes ≡ n * 2
    → Servable stick_drive.sys 7 lba n bytes
servable lba n bytes some_blocks on_drive exact = record {
  open_device = refl;
  some_blocks = some_blocks;
  size_known = omega arith;
  on_drive = on_drive;
  count_fits = omega arith;
  exact = exact;
  addressable = omega arith;
}

-- The second sector of a write, and a sector that was never written.
session-answers_example :
    Option.map
      (λ r. r.0)
      (session stick_api
        (write_request 1 2 two_blocks
          ∷ read_request 2 1 (0 ∷ 0 ∷ [])
          ∷ read_request 0 1 (7 ∷ 7 ∷ [])
          ∷ [])
        stick_drive.sys)
    ≡ some (ok ([] ∷ (3 ∷ 4 ∷ []) ∷ (0 ∷ 0 ∷ []) ∷ []))
session-answers_example =
    session-answers stick_api 7 stick_disk StickUp stick_drive.sys
      (write_request 1 2 two_blocks
        ∷ read_request 2 1 (0 ∷ 0 ∷ [])
        ∷ read_request 0 1 (7 ∷ 7 ∷ [])
        ∷ [])
      stick_api-IsDrive stick_component-IsUp
      (
        servable 1 2 4 (omega arith) (omega arith) refl,
        omega arith,
        (
          servable 2 1 2 (omega arith) (omega arith) refl,
          omega arith,
          (servable 0 1 2 (omega arith) (omega arith) refl, omega arith, tt),
        ),
      )

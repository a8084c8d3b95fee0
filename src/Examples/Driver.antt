-- ===== src/Examples/Driver.antt =====
-- The USB driver at concrete inputs.
use bindkey_esp.Base.{
  ℕ, zero, suc, ◌+◌, ◌*◌, ◌≡◌, refl, ap, arith, pos, negsuc, some, List, [], ◌∷◌, ok, err, true,
  none, invalid_arg, invalid_state,
}
use bindkey_esp.MassStorage.Types.{Board, gpio_level, UsbMassStorage, Sys}
use bindkey_esp.MassStorage.BlockDevice.{bd_read_blocks, bd_write_blocks}
use bindkey_esp.MassStorage.BlockDevice.Guards.{bd_blocks_off_drive}
use bindkey_esp.MassStorage.Driver.{poll, events_of}
use bindkey_esp.MassStorage.Driver.Coherence.{IsCoherent, Holds, poll-Holds}
use bindkey_esp.Boot.{main_rounds}
use bindkey_esp.Boot.Quiet.{IsHandled}
use bindkey_esp.Boot.GivenUp.{main_rounds-IsGivenUp, retries_run_out}
use bindkey_esp.Boot.Watchdog.{watchdog_power_cycles}
use bindkey_esp.Examples.Worlds.{busy_api, busy_board}

-- A drive of four blocks of two bytes.
abbrev pub small_drive : UsbMassStorage
small_drive = record {
  pending_addr = negsuc 0;
  retries_left = pos 0;
  handle = some 5;
  vfs = none;
  block_size = 2;
  block_count = 4;
  no_device_since = none;
}

abbrev pub announced : ℕ → UsbMassStorage
announced left = record {
  pending_addr = pos 3;
  retries_left = pos left;
  handle = none;
  vfs = none;
  block_size = 0;
  block_count = 0;
  no_device_since = none;
}

abbrev pub running : UsbMassStorage → ℕ → Sys ℕ
running u w = record { global_set = true; tps_initialized = true; usb = u; effects = []; world = w }

abbrev pub two_blocks : List ℕ
two_blocks = 1 ∷ 2 ∷ 3 ∷ 4 ∷ []

bd_blocks_off_drive_example :
    (bd_write_blocks busy_api 3 2 two_blocks (running small_drive 0)
      ≡ some (err invalid_arg, running small_drive 0))
    × (bd_read_blocks busy_api 3 2 two_blocks (running small_drive 0)
        ≡ some (ok (err invalid_arg, two_blocks), running small_drive 0))
bd_blocks_off_drive_example =
    bd_blocks_off_drive busy_api (running small_drive 0) 3 2 two_blocks (omega arith) (omega arith)

pub announced-IsCoherent : IsCoherent (announced 3)
announced-IsCoherent = ground arith

poll-Holds_example : Holds (poll busy_board (running (announced 3) 0))
poll-Holds_example = poll-Holds busy_board (running (announced 3) 0) (λ w. tt) announced-IsCoherent

-- Every reading of the clock takes 400 ms.
abbrev slow_board : Board ℕ
slow_board = record busy_board { instant_now = λ w. (w, w + 400) }

slow_board-IsHandled : {w w' : ℕ} → w' ≡ w + 2 → IsHandled slow_board w w'
unfolding events_of
slow_board-IsHandled {w} {w'} e = record {
  library_result = ok tt;
  library_world = suc w;
  library = refl;
  events = ok [];
  handled = ap (λ x. some (ok [], x)) (omega (arith, e));
  none_arrived = refl;
}

-- The handlers take 2 ms, an attempt 1 ms and the pause 5 ms.
retries_run_out_example :
    main_rounds slow_board 3 (running (announced 3) 0) ≡ some (ok tt, running (announced 0) 24)
retries_run_out_example =
    retries_run_out slow_board 2 (running (announced 3) 0) 3 (λ k. 8 * k + 2) (λ k. 8 * k + 3) refl
      refl refl (slow_board-IsHandled refl) (λ k h. slow_board-IsHandled (omega arith))
      (λ k h. ap (λ x. some (err invalid_state, x)) (omega arith))

main_rounds-IsGivenUp_example :
    main_rounds slow_board 5 (running (announced 0) 24) ≡ some (ok tt, running (announced 0) 59)
main_rounds-IsGivenUp_example =
    main_rounds-IsGivenUp slow_board 4 (running (announced 0) 24) (λ k. 7 * k + 26)
      (record { address = 3; waiting = refl; exhausted = refl; closed = refl })
      (slow_board-IsHandled refl) (λ k h. slow_board-IsHandled (omega arith))

abbrev absent : UsbMassStorage
absent = record (announced 0) { pending_addr = negsuc 0 }

-- The worlds behind the handlers of the events while no device is there.
abbrev absent_served : ℕ → ℕ
absent_served zero = 2
absent_served (suc k) = 409 + 807 * k

watchdog_power_cycles_example :
    main_rounds slow_board 4 (running absent 0)
    ≡ some (
      ok tt,
      record (running (record absent { no_device_since = some 4823 }) 5228) {
        effects = gpio_level 1 0 ∷ gpio_level 1 1 ∷ [];
      },
    )
watchdog_power_cycles_example =
    watchdog_power_cycles slow_board 2 (running absent 0) absent_served
      (record { closed = refl; unannounced = refl; switch = refl }) refl (slow_board-IsHandled refl)
      (slow_board-IsHandled refl) (λ k h. slow_board-IsHandled (omega arith))
      (λ k h. omega (arith, h)) (omega arith)

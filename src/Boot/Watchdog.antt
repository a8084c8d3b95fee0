-- ===== src/Boot/Watchdog.antt =====
-- The watchdog of src/usb_mass_storage/driver.rs, `poll`, over many rounds of the loop of
-- src/main.rs: with no device for two seconds it power cycles the drive through
-- src/power_switch/tps.rs.
use bindkey_esp.Base.{
  ℕ, zero, suc, ◌+◌, ◌≤◌, ◌<◌, ◌≡◌, ◌∙◌, refl, negsuc, true, Option, none, some, ◌∷◌, ok, arith,
}
use bindkey_esp.MassStorage.Types.{Board, Sys, gpio_level}
use bindkey_esp.MassStorage.Driver.{try_open_and_mount, watchdog, power_cycle_usb, en_barre_gpio}
use bindkey_esp.Boot.{main_rounds}
use bindkey_esp.Boot.Quiet.{IsHandled, after_events, rested, main_rounds-quiet}

module _ {W : Type 0} (b : Board W) where
  -- One reading of the clock, and the world behind it.
  abbrev pub time : W → ℕ
  time w = (b.instant_now w).0

  abbrev pub tick : W → W
  tick w = (b.instant_now w).1

  -- A round that waits reads the clock twice, and compares the second reading.
  abbrev pub later : W → ℕ
  later w = time (tick w)

  -- No device is open or announced, and the power switch is there.
  pub record IsIdle (s : Sys W) : Type 0 where
    pub closed : s.usb.handle ≡ none
    pub unannounced : s.usb.pending_addr ≡ negsuc 0
    pub switch : s.tps_initialized ≡ true

  abbrev pub since_at : Option ℕ → W → Sys W → Sys W
  since_at since w s = record s { usb = record s.usb { no_device_since = since }; world = w }

  -- The drive is switched off for two seconds and on again, and the wait starts anew.
  abbrev pub power_cycled : W → Sys W → Sys W
  power_cycled w s =
      let off = b.sleep_ms 2000 w in
      record s {
        usb = record s.usb { no_device_since = some (time off) };
        effects = gpio_level en_barre_gpio 0 ∷ gpio_level en_barre_gpio 1 ∷ s.effects;
        world = tick off;
      }

  first_round :
      (s : Sys W)
      → IsIdle s
      → s.usb.no_device_since ≡ none
      → after_events b s ≡ some (ok tt, since_at (some (time s.world)) (tick s.world) s)
  unfolding try_open_and_mount watchdog
  first_round s idle new = rw (idle.closed, idle.unannounced, new) (ground arith)

  early_round :
      (s : Sys W) (since : ℕ)
      → IsIdle s
      → s.usb.no_device_since ≡ some since
      → later s.world < since + 2000
      → after_events b s ≡ some (ok tt, record s { world = tick (tick s.world) })
  unfolding try_open_and_mount watchdog
  early_round s since idle old early = rw (idle.closed, idle.unannounced, old) (ground arith)

  late_round :
      (s : Sys W) (since : ℕ)
      → IsIdle s
      → s.usb.no_device_since ≡ some since
      → since + 2000 ≤ later s.world
      → after_events b s ≡ some (ok tt, power_cycled (tick (tick s.world)) s)
  unfolding try_open_and_mount watchdog power_cycle_usb
  late_round s since idle old late =
      rw (idle.closed, idle.unannounced, idle.switch, old) (ground arith)

  moved : {s : Sys W} {w : W} → IsIdle s → IsIdle (record s { world = w })
  moved i = record { closed = i.closed; unannounced = i.unannounced; switch = i.switch }

  started : {s : Sys W} {o : Option ℕ} {w : W} → IsIdle s → IsIdle (since_at o w s)
  started i = record { closed = i.closed; unannounced = i.unannounced; switch = i.switch }

  -- The rounds of a wait that began at `since`.
  late_after :
      (n : ℕ) (s : Sys W) (since : ℕ) (served : ℕ → W)
      → IsIdle s
      → s.usb.no_device_since ≡ some since
      → IsHandled b s.world (served 0)
      → ((k : ℕ) → k < n → IsHandled b (b.sleep_ms 5 (tick (tick (served k)))) (served (suc k)))
      → ((k : ℕ) → k < n → later (served k) < since + 2000)
      → since + 2000 ≤ later (served n)
      → main_rounds b (suc n) s ≡ some (ok tt, rested b (power_cycled (tick (tick (served n))) s))
  unfolding main_rounds
  late_after zero s since served idle old first rest early late =
      main_rounds-quiet b 0 s first
        (late_round (record s { world = served 0 }) since (moved idle) old late)
  late_after (suc n) s since served idle old first rest early late =
      main_rounds-quiet b (suc n) s first
        (early_round (record s { world = served 0 }) since (moved idle) old (early 0 (omega arith)))
      ∙ late_after n (record s { world = b.sleep_ms 5 (tick (tick (served 0))) }) since
          (λ k. served (suc k)) (moved idle) old (rest 0 (omega arith))
          (λ k h. rest (suc k) (omega (arith, h))) (λ k h. early (suc k) (omega (arith, h))) late

  -- With no device open or announced and no event, the loop power cycles a drive once it has been
  -- missing for two seconds: the first round starts the wait at the time it reads, the `n` rounds
  -- after it, which read a time less than two seconds later, only handle events and pause, and the
  -- next round, which reads a later time, switches the drive off, sleeps for two seconds, switches
  -- it on, and starts the wait anew. `served k` is the world behind the handlers of the events of
  -- round `k`.
  pub watchdog_power_cycles :
      (n : ℕ) (s : Sys W) (served : ℕ → W)
      → IsIdle s
      → s.usb.no_device_since ≡ none
      → IsHandled b s.world (served 0)
      → IsHandled b (b.sleep_ms 5 (tick (served 0))) (served 1)
      → ((k : ℕ)
          → k < n
          → IsHandled b (b.sleep_ms 5 (tick (tick (served (suc k))))) (served (suc (suc k))))
      → ((k : ℕ) → k < n → later (served (suc k)) < time (served 0) + 2000)
      → time (served 0) + 2000 ≤ later (served (suc n))
      → main_rounds b (suc (suc n)) s
        ≡ some (ok tt, rested b (power_cycled (tick (tick (served (suc n)))) s))
  watchdog_power_cycles n s served idle new first second rest early late =
      main_rounds-quiet b (suc n) s first
        (first_round (record s { world = served 0 }) (moved idle) new)
      ∙ late_after n (since_at (some (time (served 0))) (b.sleep_ms 5 (tick (served 0))) s)
          (time (served 0)) (λ k. served (suc k)) (started idle) refl second rest early late

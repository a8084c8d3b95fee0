-- ===== src/Boot/GivenUp.antt =====
-- What the loop of src/main.rs does once the retries of src/usb_mass_storage/driver.rs are used up.
use bindkey_esp.Base.{
  ℕ, zero, suc, ◌≤◌, ◌<◌, ◌≡◌, ◌∙◌, ◌%◌, ◌^◌, refl, ℤ, pos, none, some, ok, err, arith,
  invalid_state,
}
use bindkey_esp.MassStorage.Types.{Board, Sys}
use bindkey_esp.MassStorage.Driver.{try_open_and_mount, watchdog}
use bindkey_esp.Boot.{main_rounds}
use bindkey_esp.Boot.Quiet.{IsHandled, after_events, main_rounds-quiet}

-- An address is waiting that may not be tried any more.
pub record IsGivenUp {W : Type 0} (s : Sys W) : Type 0 where
  pub address : ℕ
  pub waiting : s.usb.pending_addr ≡ pos address
  pub exhausted : s.usb.retries_left ≡ pos 0
  pub closed : s.usb.handle ≡ none

abbrev pub forget_wait : {W : Type 0} → W → Sys W → Sys W
forget_wait w s = record s { usb = record s.usb { no_device_since = none }; world = w }

module _ {W : Type 0} (b : Board W) where
  after_events-IsGivenUp :
      (s : Sys W) (w : W)
      → IsGivenUp s
      → after_events b (record s { world = w }) ≡ some (ok tt, forget_wait w s)
  unfolding try_open_and_mount watchdog
  after_events-IsGivenUp s w g = rw (g.waiting, g.exhausted, g.closed) (ground arith)

  -- Once the retries of a pending address are used up, with no device open, no number of rounds of
  -- the loop in which no event arrives tries the device again or power cycles it: the handlers of
  -- the events and the pauses between the rounds are all that runs, no effect is seen, and only
  -- the start of the watchdog's wait is forgotten. `served k` is the world behind the handlers of
  -- round `k`.
  pub main_rounds-IsGivenUp :
      (n : ℕ) (s : Sys W) (served : ℕ → W)
      → IsGivenUp s
      → IsHandled b s.world (served 0)
      → ((k : ℕ) → k < n → IsHandled b (b.sleep_ms 5 (served k)) (served (suc k)))
      → main_rounds b (suc n) s ≡ some (ok tt, forget_wait (b.sleep_ms 5 (served n)) s)
  unfolding main_rounds
  main_rounds-IsGivenUp zero s served g first rest =
      main_rounds-quiet b 0 s first (after_events-IsGivenUp s (served 0) g)
  main_rounds-IsGivenUp (suc n) s served g first rest =
      main_rounds-quiet b (suc n) s first (after_events-IsGivenUp s (served 0) g)
      ∙ main_rounds-IsGivenUp n (forget_wait (b.sleep_ms 5 (served 0)) s) (λ k. served (suc k))
          (forgotten g) (rest 0 (omega arith)) (λ k h. rest (suc k) (omega (arith, h)))
    where
      forgotten : {s : Sys W} {w : W} → IsGivenUp s → IsGivenUp (forget_wait w s)
      forgotten g = record {
        address = g.address;
        waiting = g.waiting;
        exhausted = g.exhausted;
        closed = g.closed;
      }

  -- A pending address with `left` retries left, no start of a wait, and the world `w`.
  abbrev pub tried : ℤ → W → Sys W → Sys W
  tried left w s = record s {
    usb = record s.usb { retries_left = left; no_device_since = none };
    world = w;
  }

  -- One failed attempt uses up one retry, and the round does nothing else.
  after_events-busy :
      (s : Sys W) (address left : ℕ) {w : W}
      → s.usb.pending_addr ≡ pos address
      → s.usb.retries_left ≡ pos (suc left)
      → s.usb.handle ≡ none
      → b.api.install_device (address % 2 ^ 8) s.world ≡ some (err invalid_state, w)
      → after_events b s ≡ some (ok tt, tried (pos left) w s)
  unfolding try_open_and_mount watchdog
  after_events-busy s address left waiting retries closed busy = ground (arith, busy)

  -- A pending address with `n + 1` retries left, with no device open and no event, is tried once in
  -- each of the next `n + 1` rounds of the loop where the device answers each attempt with
  -- `invalid_state`: the retries are used up then, the address is still pending, and apart from the
  -- handlers of the events, the attempts and the pauses nothing runs and no effect is seen.
  -- `served k` is the world behind the handlers of round `k`, and `answered k` the one behind its
  -- attempt.
  pub retries_run_out :
      (n : ℕ) (s : Sys W) (address : ℕ) (served answered : ℕ → W)
      → s.usb.pending_addr ≡ pos address
      → s.usb.retries_left ≡ pos (suc n)
      → s.usb.handle ≡ none
      → IsHandled b s.world (served 0)
      → ((k : ℕ) → k < n → IsHandled b (b.sleep_ms 5 (answered k)) (served (suc k)))
      → ((k : ℕ)
          → k ≤ n
          → b.api.install_device (address % 2 ^ 8) (served k)
            ≡ some (err invalid_state, answered k))
      → main_rounds b (suc n) s ≡ some (ok tt, tried (pos 0) (b.sleep_ms 5 (answered n)) s)
  unfolding main_rounds
  retries_run_out zero s address served answered waiting left closed first rest busy =
      main_rounds-quiet b 0 s first (
        after_events-busy (record s { world = served 0 }) address 0 waiting left closed
          (busy 0 (omega arith)))
  retries_run_out (suc n) s address served answered waiting left closed first rest busy =
      main_rounds-quiet b (suc n) s first (
        after_events-busy (record s { world = served 0 }) address (suc n) waiting left closed
          (busy 0 (omega arith)))
      ∙ retries_run_out n (tried (pos (suc n)) (b.sleep_ms 5 (answered 0)) s) address
          (λ k. served (suc k)) (λ k. answered (suc k)) waiting refl closed (rest 0 (omega arith))
          (λ k h. rest (suc k) (omega (arith, h))) (λ k h. busy (suc k) (omega (arith, h)))

-- ===== src/Boot/Quiet.antt =====
-- Rounds of the loop of src/main.rs in which no event arrives.
use bindkey_esp.Base.{ℕ, suc, ◌≡◌, refl, some, List, [], Result, ok}
use bindkey_esp.Base.Action.{Act, ◌>>◌}
use bindkey_esp.MassStorage.Types.{MscEvent, Board, Sys}
use bindkey_esp.MassStorage.Driver.{poll, events_of, try_open_and_mount, watchdog}
use bindkey_esp.Boot.{main_rounds}

module _ {W : Type 0} (b : Board W) where
  -- From the world `w`, the two handlers of a round return in the world `w'` without an event.
  pub record IsHandled (w w' : W) : Type 0 where
    pub library_result : Result (Unit {0})
    pub library_world : W
    pub library : b.lib_handle_events w ≡ some (library_result, library_world)
    pub events : Result (List MscEvent)
    pub handled : b.api.handle_events library_world ≡ some (events, w')
    pub none_arrived : events_of b events ≡ []

  -- The rest of `poll`, behind the handling of the events.
  abbrev pub after_events : Act (Sys W) (Unit {0})
  after_events = try_open_and_mount b >> watchdog b

  -- The pause at the end of a round.
  abbrev pub rested : Sys W → Sys W
  rested s = record s { world = b.sleep_ms 5 s.world }

  poll_quiet :
      (s : Sys W) {w : W} → IsHandled s.world w → poll b s ≡ after_events (record s { world = w })
  unfolding poll
  poll_quiet s h = rw (h.library, h.handled, h.none_arrived) refl

  -- A round without an event is what follows the events, and the pause.
  pub main_rounds-quiet :
      (n : ℕ) (s : Sys W) {w : W} {t : Sys W}
      → IsHandled s.world w
      → after_events (record s { world = w }) ≡ some (ok tt, t)
      → main_rounds b (suc n) s ≡ main_rounds b n (rested t)
  unfolding main_rounds
  main_rounds-quiet n s h done = rw (poll_quiet s h, done) refl

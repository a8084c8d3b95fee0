-- ===== src/MassStorage/Driver/Coherence.antt =====
-- The invariant of `UsbMassStorage` (src/usb_mass_storage/driver.rs): every operation keeps it,
-- whatever the component behind the interface and the board answer.
use bindkey_esp.Base.{
  ℕ, ◌<◌, ◌≡◌, ℤ, pos, negsuc, ◌≤ℤ◌, Option, none, some, List, [], ◌∷◌, Result, ok, err, arith,
}
use bindkey_esp.Base.Action.{Act, ignore, resume, outcome}
use bindkey_esp.MassStorage.Types.{
  MscEvent, connected, disconnected, other_event, Board, UsbMassStorage, Sys, call, rejoin,
  new_mass_storage,
}
use bindkey_esp.MassStorage.BlockDevice.{bd_refresh_capacity}
use bindkey_esp.MassStorage.Driver.{
  handle_raw_event, msc_event_cb, deliver, try_open_and_mount, watchdog, poll, events_of,
  retry_count,
}

-- An open drive has no pending address and no retries left.
abbrev pub Settled : Option ℕ → ℤ → ℤ → Type 0
Settled none pending retries = Unit
Settled (some h) pending retries = (pending ≡ negsuc 0) × (retries ≡ pos 0)

-- With no open drive no capacity is known.
abbrev pub Blank : Option ℕ → ℕ → ℕ → Type 0
Blank none size count = (size ≡ 0) × (count ≡ 0)
Blank (some h) size count = Unit

pub record IsCoherent (u : UsbMassStorage) : Type 0 where
  pub settled : Settled u.handle u.pending_addr u.retries_left
  pub blank : Blank u.handle u.block_size u.block_count
  pub pending_low : negsuc 0 ≤ℤ u.pending_addr
  pub pending_high : u.pending_addr ≤ℤ pos 255
  pub retries_low : pos 0 ≤ℤ u.retries_left
  pub retries_high : u.retries_left ≤ℤ pos retry_count
  pub unmounted : u.vfs ≡ none

-- The invariant after an action, if it does not crash.
abbrev pub Holds : {W A : Type 0} → Option (Result A × Sys W) → Type 0
Holds none = Unit
Holds (some (r, s)) = IsCoherent s.usb

-- A device address is a byte.
abbrev pub InByte : MscEvent → Type 0
InByte (connected address) = address < 256
InByte disconnected = Unit
InByte (other_event n) = Unit

abbrev pub AllInByte : List MscEvent → Type 0
AllInByte [] = Unit
AllInByte (event ∷ events) = InByte event × AllInByte events

-- The events that one call delivers come from devices with byte addresses.
abbrev pub Delivers : {W : Type 0} → Option (Result (List MscEvent) × W) → Type 0
Delivers none = Unit
Delivers (some (ok events, w)) = AllInByte events
Delivers (some (err e, w)) = Unit

module _ {W A B : Type 0} where
  pub Holds-bind :
      (m : Option (Result A × Sys W)) (k : A → Act (Sys W) B)
      → Holds m
      → ((a : A) (s : Sys W) → IsCoherent s.usb → Holds (k a s))
      → Holds (resume m k)
  Holds-bind none k h next = tt
  Holds-bind (some (ok a, s)) k h next = next a s h
  Holds-bind (some (err e, s)) k h next = h

module _ {W A : Type 0} where
  Holds-attempt : (m : Option (Result A × Sys W)) → Holds m → Holds (outcome m)
  Holds-attempt none h = tt
  Holds-attempt (some (r, s)) h = h

  Holds-ignore : (m : Act (Sys W) A) (s : Sys W) → Holds (m s) → Holds (ignore m s)
  Holds-ignore m s h = Holds-bind _ _ (Holds-attempt _ h) (λ _ s' c. c)

  -- A call out of the firmware leaves the driver's fields alone.
  Holds-call : (m : Act W A) (s : Sys W) → IsCoherent s.usb → Holds (call m s)
  Holds-call m s c = ground arith

new_mass_storage-IsCoherent : IsCoherent new_mass_storage
unfolding new_mass_storage
new_mass_storage-IsCoherent = ground arith

module _ {W : Type 0} (b : Board W) where
  handle_raw_event-Holds :
      (event : MscEvent) (s : Sys W)
      → InByte event
      → IsCoherent s.usb
      → Holds (handle_raw_event b event s)
  unfolding handle_raw_event
  handle_raw_event-Holds (connected address) s h c = ground arith
  handle_raw_event-Holds disconnected s h c = ground arith
  handle_raw_event-Holds (other_event n) s h c = c

  pub msc_event_cb-Holds :
      (event : MscEvent) (s : Sys W)
      → InByte event
      → IsCoherent s.usb
      → Holds (msc_event_cb b event s)
  unfolding msc_event_cb
  msc_event_cb-Holds event s h c = ground (arith, handle_raw_event-Holds event s h c)

  deliver-Holds :
      (events : List MscEvent) (s : Sys W)
      → AllInByte events
      → IsCoherent s.usb
      → Holds (deliver b events s)
  unfolding deliver
  deliver-Holds [] s h c = c
  deliver-Holds (event ∷ events) s h c =
      Holds-bind (msc_event_cb b event s) (λ _. deliver b events) (msc_event_cb-Holds event s h.0 c)
        (λ _ s' c'. deliver-Holds events s' h.1 c')

  pub bd_refresh_capacity-Holds :
      (s : Sys W) → IsCoherent s.usb → Holds (bd_refresh_capacity b.api s)
  unfolding bd_refresh_capacity
  bd_refresh_capacity-Holds s c = ground arith

  try_open_and_mount-Holds : (s : Sys W) → IsCoherent s.usb → Holds (try_open_and_mount b s)
  unfolding try_open_and_mount
  try_open_and_mount-Holds s c = ground arith

  watchdog-Holds : (s : Sys W) → IsCoherent s.usb → Holds (watchdog b s)
  unfolding watchdog
  watchdog-Holds s c = ground arith

  handled-Holds :
      (o : Option (Result (List MscEvent) × W)) (s : Sys W)
      → (k : Result (List MscEvent) → Act (Sys W) (Unit {0})) → Delivers o
      → IsCoherent s.usb
      → ((r : Result (List MscEvent)) (s' : Sys W)
          → AllInByte (events_of b r)
          → IsCoherent s'.usb
          → Holds (k r s'))
      → Holds (resume (outcome (rejoin s o)) k)
  unfolding events_of
  handled-Holds none s k d c next = tt
  handled-Holds (some (ok events, w)) s k d c next = next (ok events) (record s { world = w }) d c
  handled-Holds (some (err e, w)) s k d c next = next (err e) (record s { world = w }) tt c

  -- One round of the polling loop that does not crash keeps the driver's fields coherent, whatever
  -- the libraries and the board answer and whichever connection events arrive in it, from devices
  -- with byte addresses: an open drive leaves no pending address and no retries, no capacity is
  -- remembered without an open drive, no file system is mounted, and the pending address and the
  -- retries stay within their bounds.
  pub poll-Holds :
      (s : Sys W)
      → ((w : W) → Delivers (b.api.handle_events w))
      → IsCoherent s.usb
      → Holds (poll b s)
  unfolding poll
  poll-Holds s d c =
      Holds-bind _ _
        (Holds-ignore (call b.lib_handle_events) s (Holds-call b.lib_handle_events s c))
        λ _ s₁ c₁.
          handled-Holds (b.api.handle_events s₁.world) s₁ _ (d s₁.world) c₁ λ r s₂ bytes c₂.
            Holds-bind _ _ (deliver-Holds (events_of b r) s₂ bytes c₂) λ _ s₃ c₃.
              Holds-bind _ _ (try_open_and_mount-Holds s₃ c₃) λ _ s₄ c₄. watchdog-Holds s₄ c₄

-- ===== src/SpiLink/Serve/Kept.antt =====
-- Properties of the link's state that every operation of the service loop
-- (src/spi_link/transport.rs) keeps, because they are kept by a transfer, by a response and by the
-- calls of the USB driver.
pub mod Rounds
pub mod Closed
use bindkey_esp.Base.{
  ℕ, ◌≡◌, refl, subst, Bool, true, false, Option, none, some, List, ◌∷◌, if◌then◌else◌, Result, ok,
  err, EspCodes,
}
use bindkey_esp.Base.Action.{Act, resume, outcome}
use bindkey_esp.MassStorage.Types.{MscApi, gpio_level, spi_transfer, Sys}
use bindkey_esp.MassStorage.BlockDevice.{
  bd_status, bd_refresh_capacity, bd_read_blocks, bd_write_blocks,
}
use bindkey_esp.SpiLink.Link.{LinkSt, Peer, pin_ready, add_effect, send_response}
use bindkey_esp.SpiLink.Serve.{rejoin_link}

-- The property after an action that does not crash.
unfoldable pub Kept : {W A : Type 0} → (LinkSt W → Type 0) → Option (Result A × LinkSt W) → Type 0
Kept P none = Unit
Kept P (some (r, s)) = P s

-- The same for an action of the USB driver that the link calls.
unfoldable pub KeptSys :
    {W A : Type 0} → (LinkSt W → Type 0) → LinkSt W → Option (Result A × Sys W) → Type 0
KeptSys P s none = Unit
KeptSys P s (some (r, t)) = P (record s { sys = t })

-- READY raised, one transfer, and READY lowered.
abbrev pub pulse : {W : Type 0} → ℕ → List ℕ → LinkSt W → LinkSt W
pulse n sent s =
    add_effect (gpio_level pin_ready 0)
      (add_effect (spi_transfer n sent) (add_effect (gpio_level pin_ready 1) s))

pub record IsClosed {W : Type 0} (api : MscApi W) (P : LinkSt W → Type 0) : Type 0 where
  -- The buffers and the counters do not matter.
  pub unrelated : (s t : LinkSt W) → t.sys ≡ s.sys → P s → P t
  pub clocked :
      (n : ℕ) (sent : List ℕ) (s : LinkSt W) → P s → P (add_effect (spi_transfer n sent) s)
  pub pulsed : (n : ℕ) (sent : List ℕ) (s : LinkSt W) → P s → P (pulse n sent s)
  pub probed : (s : LinkSt W) → P s → KeptSys P s (bd_status api s.sys)
  pub refreshed : (s : LinkSt W) → P s → KeptSys P s (bd_refresh_capacity api s.sys)
  pub fetched :
      (lba n : ℕ) (out : List ℕ) (s : LinkSt W)
      → P s
      → KeptSys P s (bd_read_blocks api lba n out s.sys)
  pub stored :
      (lba n : ℕ) (payload : List ℕ) (s : LinkSt W)
      → P s
      → KeptSys P s (bd_write_blocks api lba n payload s.sys)

module _ {W : Type 0} (P : LinkSt W → Type 0) where
  pub Kept-resume :
      {A B : Type 0} (m : Option (Result A × LinkSt W)) (k : A → Act (LinkSt W) B)
      → Kept P m
      → ((a : A) (s : LinkSt W) → P s → Kept P (k a s))
      → Kept P (resume m k)
  unfolding Kept
  Kept-resume none k h next = tt
  Kept-resume (some (ok a, s)) k h next = next a s h
  Kept-resume (some (err e, s)) k h next = h

  pub Kept-outcome : {A : Type 0} (m : Option (Result A × LinkSt W)) → Kept P m → Kept P (outcome m)
  unfolding Kept
  Kept-outcome none h = tt
  Kept-outcome (some (r, s)) h = h

  pub Kept-branch :
      {A : Type 0} (b : Bool) (x y : Act (LinkSt W) A) (s : LinkSt W)
      → Kept P (x s)
      → Kept P (y s)
      → Kept P ((if b then x else y) s)
  Kept-branch true x y s h k = h
  Kept-branch false x y s h k = k

  pub Kept-rejoin :
      {A : Type 0} (api : MscApi W) (codes : EspCodes) (peer : Peer) (s : LinkSt W)
      (m : Option (Result A × Sys W))
      → KeptSys P s m
      → Kept P (rejoin_link api codes peer s m)
  unfolding Kept KeptSys
  Kept-rejoin api codes peer s none h = tt
  Kept-rejoin api codes peer s (some (r, t)) h = h

  pub Kept-some : {A : Type 0} (r : Result A) (s : LinkSt W) → P s → Kept P (some (r, s))
  unfolding Kept
  Kept-some r s h = h

  pub Kept-at :
      {A : Type 0} (o : Option (Result A × LinkSt W)) {r : Result A} {s : LinkSt W}
      → Kept P o
      → o ≡ some (r, s)
      → P s
  unfolding Kept
  Kept-at none h e = cc
  Kept-at (some (r, s)) h e = subst P (cc) h

-- ===== src/Msc/Scsi/Ready.antt =====
-- The polls of `msc_wait_for_ready_state` in src/usb_mass_storage/usb_host_msc/src/msc_host.c.
use Prim.Native.Nat.{max}
use bindkey_esp.Base.{ℕ, zero, suc, ◌/◌, ◌≤◌, ◌≡◌, refl, true, some, ok, err, EspErr, arith, sym}
use bindkey_esp.Base.Action.{Act}
use bindkey_esp.Msc.Types.{UsbHost, St}
use bindkey_esp.Msc.Command.{Sense}
use bindkey_esp.Msc.Scsi.{
  scsi_cmd_unit_ready, scsi_cmd_sense, may_become_ready, ready_loop, msc_wait_for_ready_state,
}

module _ {W : Type 0} (U : UsbHost W) (recover : ℕ → Act (St W) (Unit {0})) (d : ℕ) where
  -- The pause of 100 ms between two polls.
  abbrev pub paused : St W → St W
  paused s = record s { world = U.task_delay 100 s.world }

  -- One poll, with its sense request and the pause, of a device that may become ready.
  pub record Unready (s : St W) (e : EspErr) (t : St W) : Type 0 where
    pub polled : St W
    pub sensed : St W
    pub sense : Sense
    pub refused : scsi_cmd_unit_ready U recover d s ≡ some (ok (err e), polled)
    pub asked : scsi_cmd_sense U recover d polled ≡ some (ok sense, sensed)
    pub hopeful : may_become_ready U recover sense.key ≡ true
    pub next : t ≡ paused sensed

  -- So many polls in a row, up to the state `u`, find the device not ready.
  pub data Polls (u : St W) : ℕ → St W → Type 0 where
    done : Polls u 0 u
    more : {n : ℕ} {s t : St W} {e : EspErr} → Unready s e t → Polls u n t → Polls u (suc n) s

  ready_loop-ready :
      (n k : ℕ) {s t u : St W}
      → Polls t k s
      → k ≤ n
      → scsi_cmd_unit_ready U recover d t ≡ some (ok (ok tt), u)
      → ready_loop U recover n d s ≡ some (ok tt, u)
  unfolding ready_loop
  ready_loop-ready zero k done h r = rw r refl
  ready_loop-ready (suc n) k done h r = rw r refl
  ready_loop-ready zero k (more p ps) h r = absurd (omega (arith, h))
  ready_loop-ready (suc n) k (more p ps) h r =
      rw (p.refused, p.asked, p.hopeful, sym p.next) (ready_loop-ready n _ ps (omega (arith, h)) r)

  ready_loop-Unready :
      (n : ℕ) {s t u : St W} {e : EspErr}
      → Polls t n s
      → Unready t e u
      → ready_loop U recover n d s ≡ some (err e, u)
  unfolding ready_loop
  ready_loop-Unready zero done p = rw (p.refused, p.asked, p.hopeful, sym p.next) refl
  ready_loop-Unready (suc n) (more q ps) p =
      rw (q.refused, q.asked, q.hopeful, sym q.next) (ready_loop-Unready n ps p)

  -- A device that becomes ready is noticed: where so many polls in a row, at most one for each 100
  -- ms of the timeout and at least one allowed, find the device not ready and the next poll finds
  -- it ready, the wait succeeds with that poll and does nothing after it.
  pub msc_wait_for_ready_state-ready :
      (timeout_ms k : ℕ) {s t u : St W}
      → Polls t k s
      → k ≤ max 1 (timeout_ms / 100)
      → scsi_cmd_unit_ready U recover d t ≡ some (ok (ok tt), u)
      → msc_wait_for_ready_state U recover d timeout_ms s ≡ some (ok tt, u)
  unfolding msc_wait_for_ready_state
  msc_wait_for_ready_state-ready timeout_ms k ps few r = ready_loop-ready _ k ps few r

  -- The wait ends for a device that stays not ready: after one poll for each 100 ms of the timeout
  -- (one at least) and one more it returns the error of the last poll, at the state that this poll
  -- left.
  pub msc_wait_for_ready_state-Unready :
      (timeout_ms : ℕ) {s t u : St W} {e : EspErr}
      → Polls t (max 1 (timeout_ms / 100)) s
      → Unready t e u
      → msc_wait_for_ready_state U recover d timeout_ms s ≡ some (err e, u)
  unfolding msc_wait_for_ready_state
  msc_wait_for_ready_state-Unready timeout_ms ps p = ready_loop-Unready _ ps p

-- ===== src/Msc/Transfer/Kept.antt =====
-- The transfers of src/usb_mass_storage/usb_host_msc/src/msc_host.c leave the installed driver and
-- its queue of devices alone.
use bindkey_esp.Base.{ℕ, ◌≡◌, Option, none, some, List, Result, ok, err, arith}
use bindkey_esp.Base.Action.{Act, resume, outcome, ignore}
use bindkey_esp.Msc.Types.{
  MscEndpoint, MscDevice, MscDriver, Xfer, SetupPacket, UsbHost, St, lib, load, store,
}
use bindkey_esp.Msc.Transfer.{
  wait_for_transfer_done, msc_control_transfer, clear_feature, msc_mass_reset, ensure_buffer,
  fill_buffer, run_transfer, msc_bulk_transfer, control_result, bulk_result, copy_back,
  finish_transfer,
}

-- An action that does not crash leaves that driver.
unfoldable pub Leaves : {W A : Type 0} → Option MscDriver → Option (Result A × St W) → Type 0
Leaves q none = Unit
Leaves q (some (r, s)) = s.driver ≡ q

module _ {W A B : Type 0} {q : Option MscDriver} where
  pub Leaves-resume :
      (m : Option (Result A × St W)) (k : A → Act (St W) B)
      → Leaves q m
      → ((a : A) (s : St W) → s.driver ≡ q → Leaves q (k a s))
      → Leaves q (resume m k)
  unfolding Leaves
  Leaves-resume none k h next = tt
  Leaves-resume (some (ok a, s)) k h next = next a s h
  Leaves-resume (some (err e, s)) k h next = h

module _ {W A : Type 0} (q : Option MscDriver) where
  pub Leaves-attempt : (m : Option (Result A × St W)) → Leaves q m → Leaves q (outcome m)
  unfolding Leaves
  Leaves-attempt none h = tt
  Leaves-attempt (some (r, s)) h = h

  pub Leaves-ignore : (m : Act (St W) A) (s : St W) → Leaves q (m s) → Leaves q (ignore m s)
  unfolding Leaves
  Leaves-ignore m s h = Leaves-resume (outcome (m s)) _ (Leaves-attempt (m s) h) λ r s' e. e

module _ {W A : Type 0} {q : Option MscDriver} where
  Leaves-lib : (m : Act W A) (s : St W) → s.driver ≡ q → Leaves q (lib m s)
  unfolding Leaves
  Leaves-lib m s e = ground arith

  pub Leaves-same : (r : Result A) (s : St W) → s.driver ≡ q → Leaves q (some (r, s))
  unfolding Leaves
  Leaves-same r s e = e

module _ {W : Type 0} {q : Option MscDriver} where
  pub Leaves-load : (d : ℕ) (s : St W) → s.driver ≡ q → Leaves q (load d s)
  unfolding Leaves load
  Leaves-load d s e = ground arith

  Leaves-store : (d : ℕ) (v : Option MscDevice) (s : St W) → s.driver ≡ q → Leaves q (store d v s)
  unfolding Leaves store
  Leaves-store d v s e = e

module _ {W : Type 0} (U : UsbHost W) {q : Option MscDriver} where
  wait_for_transfer_done-Leaves :
      (xfer : Xfer) (s : St W) → s.driver ≡ q → Leaves q (wait_for_transfer_done U xfer s)
  unfolding wait_for_transfer_done Leaves
  wait_for_transfer_done-Leaves xfer s e = ground arith

  finish_transfer-Leaves :
      (xfer : Xfer) (payload : List ℕ) (ep : MscEndpoint) (s : St W)
      → s.driver ≡ q
      → Leaves q (finish_transfer U xfer payload ep s)
  unfolding finish_transfer bulk_result copy_back Leaves
  finish_transfer-Leaves xfer payload ep s e =
      Leaves-resume (wait_for_transfer_done U xfer s) _ (wait_for_transfer_done-Leaves xfer s e)
        λ status s' e'. ground arith

  msc_control_transfer-Leaves :
      (d : ℕ) (packet : SetupPacket) (len : ℕ) (s : St W)
      → s.driver ≡ q
      → Leaves q (msc_control_transfer U d packet len s)
  unfolding msc_control_transfer control_result Leaves load store
  msc_control_transfer-Leaves d packet len s e = ground arith

  pub clear_feature-Leaves :
      (d endpoint : ℕ) (s : St W) → s.driver ≡ q → Leaves q (clear_feature U d endpoint s)
  unfolding clear_feature
  clear_feature-Leaves d endpoint s e =
      Leaves-resume (load d s) _ (Leaves-load d s e) λ device s₁ e₁.
        Leaves-resume _ _ (Leaves-lib (U.endpoint_halt device.handle endpoint) s₁ e₁) λ _ s₂ e₂.
          Leaves-resume _ _ (Leaves-lib (U.endpoint_flush device.handle endpoint) s₂ e₂) λ _ s₃ e₃.
            Leaves-resume _ _ (Leaves-lib (U.endpoint_clear device.handle endpoint) s₃ e₃)
              λ _ s₄ e₄. msc_control_transfer-Leaves d _ _ s₄ e₄

  pub msc_mass_reset-Leaves : (d : ℕ) (s : St W) → s.driver ≡ q → Leaves q (msc_mass_reset U d s)
  unfolding msc_mass_reset
  msc_mass_reset-Leaves d s e =
      Leaves-resume (load d s) _ (Leaves-load d s e)
        λ device s' e'. msc_control_transfer-Leaves d _ _ s' e'

  pub msc_bulk_transfer-Leaves :
      (d : ℕ) (payload : List ℕ) (size : ℕ) (ep : MscEndpoint) (s : St W)
      → s.driver ≡ q
      → Leaves q (msc_bulk_transfer U d payload size ep s)
  unfolding msc_bulk_transfer ensure_buffer fill_buffer run_transfer finish_transfer bulk_result
      copy_back wait_for_transfer_done Leaves load store
  msc_bulk_transfer-Leaves d payload size ep s e = ground arith

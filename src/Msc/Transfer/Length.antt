-- ===== src/Msc/Transfer/Length.antt =====
-- The caller's buffer through `msc_bulk_transfer` of
-- src/usb_mass_storage/usb_host_msc/src/msc_host.c.
use bindkey_esp.Base.{ℕ, refl, List, length, length-overwrite, leb, take}
use bindkey_esp.Base.Action.{assert, deref}
use bindkey_esp.Base.Returns.{Returns, Returns-resume, HasLength}
use bindkey_esp.Msc.Types.{
  MscEndpoint, ep_in, ep_out, TransferStatus, completed, stall, timed_out, other_status, UsbHost,
  St, Xfer, MscDevice, load, store,
}
use bindkey_esp.Msc.Transfer.{
  transfer_size, ensure_buffer, fill_buffer, msc_bulk_transfer, bulk_result, finish_transfer,
  run_transfer,
}

module _ {W : Type 0} (U : UsbHost W) where
  bulk_result-length :
      (status : TransferStatus) (payload : List ℕ) (ep : MscEndpoint) (s : St W)
      → Returns (HasLength (length payload)) (bulk_result U status payload ep s)
  unfolding bulk_result Returns
  bulk_result-length completed payload ep_out s = refl
  bulk_result-length completed payload ep_in s =
      let c = U.completion s.world in
      Returns-resume (HasLength (length payload))
        (assert (leb c.actual_num_bytes (length payload)) s) _
        (λ _ s'. length-overwrite 0 (take c.actual_num_bytes c.received) payload)
  bulk_result-length stall payload ep s = tt
  bulk_result-length timed_out payload ep s = tt
  bulk_result-length (other_status n) payload ep s = tt

  finish_transfer-length :
      (xfer : Xfer) (payload : List ℕ) (ep : MscEndpoint) (s : St W)
      → Returns (HasLength (length payload)) (finish_transfer U xfer payload ep s)
  unfolding finish_transfer
  finish_transfer-length xfer payload ep s =
      Returns-resume (HasLength (length payload)) _ _
        λ status s'. bulk_result-length status payload ep s'

  run_transfer-length :
      (d : ℕ) (device : MscDevice) (xfer : Xfer) (payload : List ℕ) (ep : MscEndpoint) (s : St W)
      → Returns (HasLength (length payload)) (run_transfer U d device xfer payload ep s)
  unfolding run_transfer store
  run_transfer-length d device xfer payload ep s =
      Returns-resume (HasLength (length payload)) _ _
        λ _ s'. finish_transfer-length xfer payload ep s'

  -- A transfer gives back a buffer of the length that it was given.
  pub msc_bulk_transfer-length :
      (d : ℕ) (payload : List ℕ) (size : ℕ) (ep : MscEndpoint) (s : St W)
      → Returns (HasLength (length payload)) (msc_bulk_transfer U d payload size ep s)
  unfolding msc_bulk_transfer
  msc_bulk_transfer-length d payload size ep s =
      Returns-resume (HasLength (length payload)) (load d s) _ λ device s₁.
        Returns-resume (HasLength (length payload)) (deref device.xfer s₁) _ λ old s₂.
          Returns-resume (HasLength (length payload))
            (ensure_buffer U d device old (transfer_size U device.config size ep) s₂) _
            λ big s₃.
              Returns-resume (HasLength (length payload))
                (fill_buffer U device.config big payload size ep s₃) _
                λ filled s₄.
                  run_transfer-length d device
                    (record filled {
                      num_bytes = transfer_size U device.config size ep;
                      device_handle = device.handle;
                      timeout_ms = 5000;
                    })
                    payload ep s₄

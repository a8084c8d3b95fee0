-- ===== src/Msc/Bot/Kept.antt =====
-- The Bulk-Only Transport of src/usb_mass_storage/usb_host_msc/src/msc_scsi_bot.c leaves the
-- installed driver alone, if its reset recovery does.
use bindkey_esp.Base.{ℕ, ◌≡◌, Option, none, some, List, Result, ok, err, msc_stall, arith}
use bindkey_esp.Base.Action.{Act}
use bindkey_esp.Msc.Types.{MscDriver, UsbHost, St}
use bindkey_esp.Msc.Command.{Command}
use bindkey_esp.Msc.Transfer.Kept.{
  Leaves, Leaves-resume, Leaves-attempt, Leaves-ignore, Leaves-load, clear_feature-Leaves,
  msc_bulk_transfer-Leaves,
}
use bindkey_esp.Msc.Bot.{
  command_transport, data_transport, retry_result, status_result, status_transport, after_data,
  after_command, bot_execute_command,
}

module _ {W : Type 0} (U : UsbHost W) (recover : ℕ → Act (St W) (Unit {0})) {q : Option MscDriver}
    (kept : (d : ℕ) (s : St W) → s.driver ≡ q → Leaves q (recover d s)) where
  retry_result-Leaves :
      (d : ℕ) (again : Result (List ℕ)) (s : St W)
      → s.driver ≡ q
      → Leaves q (retry_result U recover d again s)
  unfolding retry_result Leaves
  retry_result-Leaves d (ok csw) s e = e
  retry_result-Leaves d (err x) s e =
      Leaves-resume _ _ (Leaves-ignore q (recover d) s (kept d s e)) λ _ s' e'. e'

  status_result-Leaves :
      (d : ℕ) (csw : List ℕ) (first : Result (List ℕ)) (s : St W)
      → s.driver ≡ q
      → Leaves q (status_result U recover d csw first s)
  unfolding status_result Leaves
  status_result-Leaves d csw (err msc_stall) s e =
      Leaves-resume _ _ (Leaves-load d s e) λ device s₁ e₁.
        Leaves-resume _ _ (clear_feature-Leaves U d _ s₁ e₁) λ _ s₂ e₂.
          Leaves-resume _ _ (Leaves-attempt q _ (msc_bulk_transfer-Leaves U d csw _ _ s₂ e₂))
            λ again s₃ e₃. retry_result-Leaves d again s₃ e₃
  status_result-Leaves d csw first s e = ground arith

  status_transport-Leaves :
      (d tag : ℕ) (s : St W) → s.driver ≡ q → Leaves q (status_transport U recover d tag s)
  unfolding status_transport Leaves
  status_transport-Leaves d tag s e =
      Leaves-resume _ _ (Leaves-attempt q _ (msc_bulk_transfer-Leaves U d _ _ _ s e))
        λ first s₁ e₁. Leaves-resume _ _ (status_result-Leaves d _ first s₁ e₁) λ final s₂ e₂. e₂

  after_data-Leaves :
      (d : ℕ) (c : Command) (before : List ℕ) (moved : Result (List ℕ)) (s : St W)
      → s.driver ≡ q
      → Leaves q (after_data U recover d c before moved s)
  unfolding after_data Leaves
  after_data-Leaves d c before (err x) s e = e
  after_data-Leaves d c before (ok payload) s e =
      Leaves-resume _ _ (Leaves-attempt q _ (status_transport-Leaves d c.base.tag s e))
        λ status s' e'. e'

  data_transport-Leaves :
      (d : ℕ) (c : Command) (payload : Option (List ℕ)) (size : ℕ) (s : St W)
      → s.driver ≡ q
      → Leaves q (data_transport U recover d c.base payload size s)
  unfolding data_transport Leaves
  data_transport-Leaves d c none size s e = e
  data_transport-Leaves d c (some payload) size s e =
      msc_bulk_transfer-Leaves U d payload size _ s e

  after_command-Leaves :
      (d : ℕ) (c : Command) (payload : Option (List ℕ)) (size : ℕ) (sent : Result (List ℕ))
      (s : St W)
      → s.driver ≡ q
      → Leaves q (after_command U recover d c payload size sent s)
  unfolding after_command Leaves
  after_command-Leaves d c payload size (err x) s e = e
  after_command-Leaves d c payload size (ok sent) s e =
      Leaves-resume _ _ (Leaves-attempt q _ (data_transport-Leaves d c payload size s e))
        λ moved s' e'. after_data-Leaves d c _ moved s' e'

  pub bot_execute_command-Leaves :
      (d : ℕ) (c : Command) (payload : Option (List ℕ)) (size : ℕ) (s : St W)
      → s.driver ≡ q
      → Leaves q (bot_execute_command U recover d c payload size s)
  unfolding bot_execute_command command_transport
  bot_execute_command-Leaves d c payload size s e =
      Leaves-resume _ _ (Leaves-attempt q _ (msc_bulk_transfer-Leaves U d _ _ _ s e))
        λ sent s' e'. after_command-Leaves d c payload size sent s' e'

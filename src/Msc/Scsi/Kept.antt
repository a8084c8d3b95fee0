-- ===== src/Msc/Scsi/Kept.antt =====
-- The SCSI commands of src/usb_mass_storage/usb_host_msc/src/msc_scsi_bot.c and the recovery of
-- src/msc_host.c leave the installed driver alone.
use bindkey_esp.Base.{
  ℕ, zero, suc, ◌≡◌, Bool, Option, none, some, List, replicate, Status, EspErr, ok, err, arith,
  msc_internal,
}
use bindkey_esp.Base.Action.{Act, guard, throw, from_result}
use bindkey_esp.Msc.Types.{MscDriver, UsbHost, St}
use bindkey_esp.Msc.Command.{
  dir_in, sense_size, sense_block, unit_ready_block, inquiry_size, inquiry_block,
  read_capacity_block,
}
use bindkey_esp.Msc.Transfer.{clear_feature}
use bindkey_esp.Msc.Transfer.Kept.{
  Leaves, Leaves-resume, Leaves-attempt, Leaves-ignore, Leaves-load, Leaves-same,
  clear_feature-Leaves, msc_mass_reset-Leaves,
}
use bindkey_esp.Msc.Bot.Kept.{bot_execute_command-Leaves}
use bindkey_esp.Msc.Scsi.{
  execute, scsi_cmd_sense, check_sense, after_command, scsi_cmd_unit_ready, scsi_cmd_inquiry,
  scsi_cmd_read_capacity, after_poll, ready_loop, msc_wait_for_ready_state, reset_recovery_step,
  msc_host_reset_recovery, may_become_ready, wait_for_ready_timeout_ms,
}

guard-Leaves :
    {W : Type 0} {q : Option MscDriver} (test : Bool) (x : EspErr) (s : St W)
    → s.driver ≡ q
    → Leaves q (guard test x s)
unfolding Leaves
guard-Leaves test x s e = ground arith

module _ {W : Type 0} (U : UsbHost W) (recover : ℕ → Act (St W) (Unit {0})) {q : Option MscDriver}
    (kept : (d : ℕ) (s : St W) → s.driver ≡ q → Leaves q (recover d s)) where
  execute-Leaves :
      (d dir data_length : ℕ) (block : List ℕ) (payload : Option (List ℕ)) (s : St W)
      → s.driver ≡ q
      → Leaves q (execute U recover d dir data_length block payload s)
  unfolding execute
  execute-Leaves d dir data_length block payload s e =
      bot_execute_command-Leaves U recover kept d _ payload data_length _ e

  scsi_cmd_sense-Leaves :
      (d : ℕ) (s : St W) → s.driver ≡ q → Leaves q (scsi_cmd_sense U recover d s)
  unfolding scsi_cmd_sense
  scsi_cmd_sense-Leaves d s e =
      Leaves-resume
        (execute U recover d dir_in sense_size sense_block (some (U.uninit sense_size s.world)) s) _
        (execute-Leaves d _ _ _ _ s e)
        λ reply s' e'.
          Leaves-resume (from_result reply.0 s') _ (Leaves-same reply.0 s' e')
            λ _ s'' e''. Leaves-same _ s'' e''

  check_sense-Leaves :
      (d : ℕ) (status : Status) (s : St W)
      → s.driver ≡ q
      → Leaves q (check_sense U recover d status s)
  unfolding check_sense
  check_sense-Leaves d (ok _) s e = Leaves-same _ s e
  check_sense-Leaves d (err x) s e =
      Leaves-resume _ _ (scsi_cmd_sense-Leaves d s e) λ _ s' e'. Leaves-same _ s' e'

  after_command-Leaves :
      (d : ℕ) (status : Status) (s : St W)
      → s.driver ≡ q
      → Leaves q (after_command U recover d status s)
  unfolding after_command
  after_command-Leaves d status s e =
      Leaves-resume _ _ (Leaves-attempt q _ (check_sense-Leaves d status s e))
        λ _ s' e'. Leaves-same _ s' e'

  scsi_cmd_unit_ready-Leaves :
      (d : ℕ) (s : St W) → s.driver ≡ q → Leaves q (scsi_cmd_unit_ready U recover d s)
  unfolding scsi_cmd_unit_ready
  scsi_cmd_unit_ready-Leaves d s e =
      Leaves-resume (execute U recover d dir_in 0 unit_ready_block none s) _
        (execute-Leaves d _ _ _ _ s e) λ reply s' e'. after_command-Leaves d reply.0 s' e'

  pub scsi_cmd_inquiry-Leaves :
      (d : ℕ) (s : St W) → s.driver ≡ q → Leaves q (scsi_cmd_inquiry U recover d s)
  unfolding scsi_cmd_inquiry
  scsi_cmd_inquiry-Leaves d s e =
      Leaves-resume
        (execute U recover d dir_in inquiry_size inquiry_block (some (replicate inquiry_size 0)) s)
        _ (execute-Leaves d _ _ _ _ s e) λ reply s' e'. after_command-Leaves d reply.0 s' e'

  pub scsi_cmd_read_capacity-Leaves :
      (d : ℕ) (s : St W) → s.driver ≡ q → Leaves q (scsi_cmd_read_capacity U recover d s)
  unfolding scsi_cmd_read_capacity
  scsi_cmd_read_capacity-Leaves d s e =
      Leaves-resume (execute U recover d dir_in 8 read_capacity_block (some (U.uninit 8 s.world)) s)
        _ (execute-Leaves d _ _ _ _ s e)
        λ reply s' e'.
          Leaves-resume _ _ (Leaves-attempt q _ (check_sense-Leaves d reply.0 s' e'))
            λ _ s'' e''. Leaves-same _ s'' e''

  after_poll-Leaves :
      (d : ℕ) (status : Status) (again : EspErr → Act (St W) (Unit {0})) (s : St W)
      → ((x : EspErr) (t : St W) → t.driver ≡ q → Leaves q (again x t))
      → s.driver ≡ q
      → Leaves q (after_poll U recover d status again s)
  unfolding after_poll
  after_poll-Leaves d (ok _) again s next e = Leaves-same _ s e
  after_poll-Leaves d (err x) again s next e =
      Leaves-resume _ _ (scsi_cmd_sense-Leaves d s e) λ sense s' e'.
        Leaves-resume (guard (may_become_ready U recover sense.key) msc_internal s') _
          (guard-Leaves _ _ s' e') λ _ s'' e''. next x _ e''

  ready_loop-Leaves :
      (trials d : ℕ) (s : St W) → s.driver ≡ q → Leaves q (ready_loop U recover trials d s)
  unfolding ready_loop
  ready_loop-Leaves zero d s e =
      Leaves-resume _ _ (scsi_cmd_unit_ready-Leaves d s e)
        λ status s' e'. after_poll-Leaves d status throw s' (λ x t h. Leaves-same _ t h) e'
  ready_loop-Leaves (suc trials) d s e =
      Leaves-resume _ _ (scsi_cmd_unit_ready-Leaves d s e)
        λ status s' e'. after_poll-Leaves d status _ s' (λ x t h. ready_loop-Leaves trials d t h) e'

  pub msc_wait_for_ready_state-Leaves :
      (d timeout_ms : ℕ) (s : St W)
      → s.driver ≡ q
      → Leaves q (msc_wait_for_ready_state U recover d timeout_ms s)
  unfolding msc_wait_for_ready_state
  msc_wait_for_ready_state-Leaves d timeout_ms s e = ready_loop-Leaves _ d s e

  reset_recovery_step-Leaves :
      (d : ℕ) (s : St W) → s.driver ≡ q → Leaves q (reset_recovery_step U recover d s)
  unfolding reset_recovery_step
  reset_recovery_step-Leaves d s e = Leaves-resume _ _ (msc_mass_reset-Leaves U d s e) λ _ s₁ e₁.
      Leaves-resume _ _ (Leaves-load d s₁ e₁) λ device s₂ e₂.
        Leaves-resume _ _
          (Leaves-ignore q (clear_feature U d device.config.bulk_in_ep) s₂
            (clear_feature-Leaves U d _ s₂ e₂))
          λ _ s₃ e₃.
            Leaves-resume _ _
              (Leaves-ignore q (clear_feature U d device.config.bulk_out_ep) s₃
                (clear_feature-Leaves U d _ s₃ e₃))
              λ _ s₄ e₄. msc_wait_for_ready_state-Leaves d wait_for_ready_timeout_ms s₄ e₄

-- However many recoveries may be nested.
pub msc_host_reset_recovery-Leaves :
    {W : Type 0}
    → (U : UsbHost W) {q : Option MscDriver} (depth d : ℕ) (s : St W) → s.driver ≡ q
    → Leaves q (msc_host_reset_recovery U depth d s)
unfolding msc_host_reset_recovery Leaves
msc_host_reset_recovery-Leaves U zero d s e = tt
msc_host_reset_recovery-Leaves U (suc depth) d s e =
    reset_recovery_step-Leaves U (msc_host_reset_recovery U depth)
      (msc_host_reset_recovery-Leaves U depth) d s e

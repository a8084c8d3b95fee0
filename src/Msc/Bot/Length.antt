-- ===== src/Msc/Bot/Length.antt =====
-- The caller's buffer through `bot_execute_command` of
-- src/usb_mass_storage/usb_host_msc/src/msc_scsi_bot.c.
use bindkey_esp.Base.{ℕ, refl, some, List, length, Result, ok, err}
use bindkey_esp.Base.Action.{Act}
use bindkey_esp.Base.Returns.{
  Returns, Returns-resume, Returns-resume_from, Returns-attempt, HasLength, OutcomeHas,
}
use bindkey_esp.Msc.Types.{UsbHost, St}
use bindkey_esp.Msc.Transfer.Length.{msc_bulk_transfer-length}
use bindkey_esp.Msc.Command.{Command}
use bindkey_esp.Msc.Bot.{
  Reply, data_transport, data_endpoint, after_data, after_command, bot_execute_command,
}

-- The data buffer of a reply has that length.
abbrev pub ReplyHas : ℕ → Reply → Type 0
ReplyHas n reply = HasLength n reply.1

pub returned :
    {W : Type 0} {n : ℕ} (reply : Reply) (s : St W)
    → ReplyHas n reply
    → Returns (ReplyHas n) (some (ok reply, s))
unfolding Returns
returned reply s h = h

module _ {W : Type 0} (U : UsbHost W) (reset_recovery : ℕ → Act (St W) (Unit {0})) where
  after_data-length :
      (d : ℕ) (c : Command) (n : ℕ) (before : List ℕ) (moved : Result (List ℕ)) (s : St W)
      → HasLength n before
      → OutcomeHas n moved
      → Returns (ReplyHas n) (after_data U reset_recovery d c before moved s)
  unfolding after_data
  after_data-length d c n before (err e) s h k = returned (err e, before) s h
  after_data-length d c n before (ok payload) s h k =
      Returns-resume (ReplyHas n) _ _ λ status s'. returned (status, payload) s' k

  after_command-length :
      (d : ℕ) (c : Command) (payload : List ℕ) (size : ℕ) (sent : Result (List ℕ)) (s : St W)
      → Returns
          (ReplyHas (length payload))
          (after_command U reset_recovery d c (some payload) size sent s)
  unfolding after_command data_transport
  after_command-length d c payload size (err e) s = returned (err e, payload) s refl
  after_command-length d c payload size (ok sent) s =
      Returns-resume_from (ReplyHas (length payload)) (OutcomeHas (length payload)) _ _
        (Returns-attempt (length payload) _
          (msc_bulk_transfer-length U d payload size (data_endpoint c.base) s))
        λ moved s' k. after_data-length d c (length payload) payload moved s' refl k

  pub bot_execute_command-length :
      (d : ℕ) (c : Command) (payload : List ℕ) (size : ℕ) (s : St W)
      → Returns
          (ReplyHas (length payload))
          (bot_execute_command U reset_recovery d c (some payload) size s)
  unfolding bot_execute_command
  bot_execute_command-length d c payload size s =
      Returns-resume (ReplyHas (length payload)) _ _
        λ sent s'. after_command-length d c payload size sent s'

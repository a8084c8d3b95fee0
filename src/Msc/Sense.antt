-- ===== src/Msc/Sense.antt =====
-- The descriptions of sense data in src/usb_mass_storage/usb_host_msc/src/msc_scsi_bot.c.
use bindkey_esp.Base.{ℕ, ◌&&◌, List, [], ◌∷◌, ◌==◌, if◌then◌else◌}
use bindkey_esp.Msc.Command.{Sense}

-- The strings of the table, and the one for any other sense data.
pub data Description : Type 0 where
  no_sense write_protected_media not_found : Description

-- `sense_errors_t`
pub record SenseError : Type 0 where
  pub sense_key : ℕ
  pub asc : ℕ
  pub ascq : ℕ
  pub description : Description

unfoldable pub sense_errors_lut : List SenseError
sense_errors_lut =
    record { sense_key = 0; asc = 0; ascq = 0; description = no_sense }
    ∷ record { sense_key = 0x07; asc = 0x27; ascq = 0; description = write_protected_media }
    ∷ []

-- The loop over the rest of the table.
decode_from : List SenseError → Sense → Description
decode_from [] sense = not_found
decode_from (e ∷ rest) sense =
    let later = decode_from rest sense in
    if e.sense_key == sense.key && e.asc == sense.code && e.ascq == sense.code_q
    then e.description
    else later

unfoldable pub decode_sense_keys : Sense → Description
unfolding decode_from sense_errors_lut
decode_sense_keys sense = decode_from sense_errors_lut sense

-- ===== src/Examples/Request.antt =====
-- A whole READ at a concrete drive.
use mathlib.Core.Option
use bindkey_esp.Base.{◌≡◌, refl, arith, some, []}
use bindkey_esp.MassStorage.BlockDevice.Store.{sectors}
use bindkey_esp.SpiLink.Protocol.{Header}
use bindkey_esp.SpiLink.Serve.Whole.{read_chunks, replies, joined, read_chunks_lem}
use bindkey_esp.Examples.Worlds.{idf_codes, silent_peer}
use bindkey_esp.Examples.Spi.{request}
use bindkey_esp.Examples.Stick.Whole.{
  stick_api, stick_api-IsDrive, stick_disk, StickUp, stick_drive, stick_drive-IsServing,
}

-- The sectors 100 to 5099 of a drive of 8192 sectors of two bytes: two chunks.
abbrev pub long_request : Header
long_request = record request { arg0 = 100; arg1 = 5000 }

read_chunks_example :
    (Option.map
        (λ r. r.1.sys.effects)
        (read_chunks stick_api idf_codes silent_peer long_request 0 2 stick_drive)
      ≡ some (replies 2 long_request (stick_disk stick_drive.sys.world) idf_codes 0 2 []))
    × (joined 2 long_request (stick_disk stick_drive.sys.world) 0 2
        ≡ sectors (stick_disk stick_drive.sys.world) 100 5000)
read_chunks_example =
    read_chunks_lem stick_api idf_codes silent_peer stick_disk StickUp 7 2 8192 stick_api-IsDrive
      (omega arith) (omega arith) (omega arith) refl long_request 2 stick_drive
      stick_drive-IsServing (omega arith) (omega arith) (omega arith) (omega arith) (omega arith)

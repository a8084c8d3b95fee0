-- ===== src/Examples/Upload.antt =====
-- A whole WRITE, and a READ after it, at a concrete drive.
use mathlib.Core.Option
use bindkey_esp.Base.{
  ℕ, ◌<◌, ◌*◌, ◌/◌, ◌≡◌, refl, arith, ok, Option, Result, some, List, [], ◌∷◌, ◌++◌, get_or,
  replicate, length-replicate,
}
use bindkey_esp.Base.Words.{u32_le}
use bindkey_esp.MassStorage.Types.{Effect}
use bindkey_esp.MassStorage.BlockDevice.Store.{Disk, stored}
use bindkey_esp.SpiLink.Protocol.{Header, Cmd, read, write, header_bytes, is_valid, cmd_enum}
use bindkey_esp.SpiLink.Protocol.Laws.{InRange}
use bindkey_esp.SpiLink.Crc.{spi_crc32}
use bindkey_esp.SpiLink.Link.{Peer}
use bindkey_esp.SpiLink.Serve.{serve_rounds}
use bindkey_esp.SpiLink.Serve.Session.Header.{Requests}
use bindkey_esp.SpiLink.Serve.Session.View.{View, view}
use bindkey_esp.SpiLink.Serve.Session.Upload.{upload_frames, download_frames}
use bindkey_esp.SpiLink.Serve.Session.Roundtrip.{upload-download}
use bindkey_esp.SpiLink.Serve.Whole.{joined}
use bindkey_esp.SpiLink.Serve.Whole.Index.{at_index}
use bindkey_esp.SpiLink.Serve.Whole.Payload.{piece}
use bindkey_esp.SpiLink.Serve.Whole.Stored.{acknowledgements, write_chunks, write_chunks_lem}
use bindkey_esp.Examples.Worlds.{idf_codes}
use bindkey_esp.Examples.Stick.Whole.{
  stick_api, stick_api-IsDrive, stick_disk, StickUp, stick_drive, stick_drive-IsServing,
}
use bindkey_esp.Examples.Request.{long_request}

-- The master writes the sectors 100 to 5099, two bytes each, in two pieces.
abbrev upload_request : Header
upload_request = record long_request { cmd = 4 }

abbrev upload_bytes : List ℕ
upload_bytes = replicate 10000 7

-- A master that sends a piece in every other transfer.
abbrev uploader : Peer
uploader = record {
  transfer = λ k. record {
    result = ok tt;
    bytes =
        piece 2 upload_request upload_bytes (k / 2)
        ++ u32_le (spi_crc32 (piece 2 upload_request upload_bytes (k / 2)));
  };
  time_us = λ k. k * 10;
}

write_chunks_example :
    Option.map {B = Disk × List Effect}
      (λ r. (stick_disk r.1.sys.world, r.1.sys.effects))
      (write_chunks stick_api idf_codes uploader upload_request 0 2 stick_drive)
    ≡ some (
      stored 2 100 5000 upload_bytes (stick_disk stick_drive.sys.world),
      acknowledgements idf_codes 2 upload_request 0 2 [],
    )
write_chunks_example =
    write_chunks_lem stick_api idf_codes uploader stick_disk StickUp 7 2 8192 stick_api-IsDrive
      (omega arith) (omega arith) (omega arith) refl upload_request upload_bytes 2 stick_drive
      stick_drive-IsServing (omega arith) (omega arith) (length-replicate {A = ℕ} 10000 7)
      (omega arith) (omega arith) (omega arith) (refl, refl, (refl, refl, tt))

-- The request's headers are within their machine types.
header-InRange : (c idx : ℕ) → c < 256 → InRange (at_index (record upload_request { cmd = c }) idx)
header-InRange c idx small = record {
  magic0 = omega arith;
  magic1 = omega arith;
  ver = omega arith;
  cmd = small;
  seq = omega arith;
  reserved = omega arith;
  arg0 = omega arith;
  arg1 = omega arith;
}

-- What the master sends in each transfer: two headers with their pieces, and two headers for the
-- READ.
abbrev sent : List (List ℕ)
sent =
    header_bytes (at_index upload_request 0)
    ∷ (piece 2 upload_request upload_bytes 0
        ++ u32_le (spi_crc32 (piece 2 upload_request upload_bytes 0)))
    ∷ []
    ∷ header_bytes (at_index upload_request 1)
    ∷ (piece 2 upload_request upload_bytes 1
        ++ u32_le (spi_crc32 (piece 2 upload_request upload_bytes 1)))
    ∷ []
    ∷ header_bytes (at_index long_request 0)
    ∷ []
    ∷ header_bytes (at_index long_request 1)
    ∷ []

abbrev master : Peer
master = record {
  transfer = λ k. record { result = ok tt; bytes = get_or sent k [] };
  time_us = λ k. k * 10;
}

requests :
    (c idx k : ℕ) (e : Option Cmd)
    → c < 256
    → get_or sent k [] ≡ header_bytes (at_index (record upload_request { cmd = c }) idx)
    → cmd_enum (record upload_request { cmd = c }) ≡ e
    → Requests master (at_index (record upload_request { cmd = c }) idx) e k
unfolding is_valid cmd_enum
requests c idx k e small brought decodes = record {
  done = refl;
  bytes = brought;
  in_range = header-InRange c idx small;
  valid = refl;
  command = decodes;
}

decoded :
    (cmd_enum (record upload_request { cmd = 4 }) ≡ some write)
    × (cmd_enum (record upload_request { cmd = 3 }) ≡ some read)
unfolding cmd_enum
decoded = (refl, refl)

upload-download_example :
    (Option.map {B = Result (Unit {0}) × View}
        (λ r. (r.0, view stick_disk r.1))
        (serve_rounds stick_api idf_codes master 4 stick_drive)
      ≡ some (
        ok tt,
        (
          stored 2 100 5000 upload_bytes (stick_disk stick_drive.sys.world),
          download_frames idf_codes 2 long_request
              (stored 2 100 5000 upload_bytes (stick_disk stick_drive.sys.world))
              0
              2
              (upload_frames idf_codes 2 upload_request 0 2 []),
        ),
      ))
    × (joined 2 long_request (stored 2 100 5000 upload_bytes (stick_disk stick_drive.sys.world)) 0 2
        ≡ upload_bytes)
upload-download_example =
    upload-download stick_api idf_codes master stick_disk StickUp 7 2 8192 stick_api-IsDrive
      (omega arith) (omega arith) (omega arith) refl upload_request long_request upload_bytes 2
      stick_drive (record { start = refl; count = refl }) stick_drive-IsServing refl (omega arith)
      (omega arith) (omega arith) (length-replicate {A = ℕ} 10000 7) (omega arith) (omega arith)
      (omega arith)
      (
        requests 4 0 0 (some write) (omega arith) refl decoded.0,
        record { done = refl; brought = refl },
        (
          requests 4 1 3 (some write) (omega arith) refl decoded.0,
          record { done = refl; brought = refl },
          tt,
        ),
      )
      (
        requests 3 0 6 (some read) (omega arith) refl decoded.1,
        (requests 3 1 8 (some read) (omega arith) refl decoded.1, tt),
      )

-- ===== src/Examples/Session.antt =====
-- A session with the service loop at a concrete drive.
use mathlib.Core.Option
use bindkey_esp.Base.{
  false, ◌==◌, ◌||◌, if◌then◌else◌, fail, ℕ, ◌<◌, ◌^◌, ◌*◌, ◌≡◌, ◌≢◌, refl, arith, Option, none,
  some, List, [], ◌∷◌, ◌++◌, ok, err, Result, invalid_arg, get_or,
}
use bindkey_esp.Base.Words.{u32_le}
use bindkey_esp.SpiLink.Protocol.{
  Header, Cmd, get_status, get_capacity, read, write, flush, header_bytes, cmd_enum, is_valid,
}
use bindkey_esp.SpiLink.Protocol.Laws.{InRange}
use bindkey_esp.SpiLink.Crc.{spi_crc32}
use bindkey_esp.SpiLink.Chunk.{Chunk, chunk_at, compute_chunk}
use bindkey_esp.SpiLink.Link.{Peer}
use bindkey_esp.SpiLink.Serve.{serve_rounds}
use bindkey_esp.SpiLink.Serve.Session.Header.{Requests}
use bindkey_esp.SpiLink.Serve.Session.View.{View, view}
use bindkey_esp.SpiLink.Serve.Session.Asks.{
  Ask, ask_read, ask_write, ask_damaged, ask_flush, ask_refused_read, ask_unknown, ask_status,
  ask_capacity, ask_lost, ask_invalid, ask_failed, Fails, respond_all, Asked, AskedAll,
}
use bindkey_esp.SpiLink.Serve.Session.Rounds.{serve_rounds_lem}
use bindkey_esp.SpiLink.Serve.Session.Probe.{IsAwake}
use bindkey_esp.Examples.Worlds.{idf_codes}
use bindkey_esp.Examples.Spi.{request}
use bindkey_esp.Examples.Stick.Whole.{
  stick_api, stick_api-IsDrive, stick_api-IsAwake, stick_disk, StickUp, stick_drive,
  stick_drive-IsServing,
}

abbrev Awake : Type 0
Awake = IsAwake stick_api 7 2 8192 stick_disk StickUp

-- A request for two sectors.
abbrev two_sectors : (cmd start : ℕ) → Header
two_sectors c start = record request { cmd = c; arg0 = start; arg1 = 2 }

two_sectors-InRange : (c start : ℕ) → c < 256 → start < 2 ^ 32 → InRange (two_sectors c start)
two_sectors-InRange c start small fits = record {
  magic0 = omega arith;
  magic1 = omega arith;
  ver = omega arith;
  cmd = small;
  seq = omega arith;
  reserved = omega arith;
  arg0 = fits;
  arg1 = omega arith;
}

abbrev other_magic : Header
other_magic = record (two_sectors 3 100) { magic = (0x42, 0x4C) }

other_magic-InRange : InRange other_magic
other_magic-InRange = record {
  magic0 = omega arith;
  magic1 = omega arith;
  ver = omega arith;
  cmd = omega arith;
  seq = omega arith;
  reserved = omega arith;
  arg0 = omega arith;
  arg1 = omega arith;
}

other_magic_invalid : is_valid other_magic ≡ false
unfolding is_valid
other_magic_invalid = refl

abbrev here : Chunk
here = record { lba = 100; nblocks = 2; len = 4 }

here_accepted : compute_chunk 2 8192 100 2 0 ≡ ok here
unfolding compute_chunk chunk_at
here_accepted = refl

beyond_refused : compute_chunk 2 8192 8191 2 0 ≡ err invalid_arg
unfolding compute_chunk chunk_at
beyond_refused = refl

abbrev bytes : List ℕ
bytes = 1 ∷ 2 ∷ 3 ∷ 4 ∷ []

wrong_word : 5 ≢ spi_crc32 bytes
unfolding spi_crc32
wrong_word = omega arith

-- A write, the same with a wrong checksum, a read, a flush, a read beyond the end, a command that
-- does not exist, the status, the capacity, a write whose payload is lost, a header with another
-- magic number and a failed transfer.
abbrev script : List Ask
script =
    ask_write (two_sectors 4 100) here bytes
    ∷ ask_damaged (two_sectors 4 100) here bytes 5
    ∷ ask_read (two_sectors 3 100) here
    ∷ ask_flush (two_sectors 5 0)
    ∷ ask_refused_read (two_sectors 3 8191) invalid_arg
    ∷ ask_unknown (two_sectors 9 0)
    ∷ ask_status (two_sectors 1 0)
    ∷ ask_capacity (two_sectors 2 0)
    ∷ ask_lost (two_sectors 4 100) here
    ∷ ask_invalid other_magic
    ∷ ask_failed
    ∷ []

-- What the master sends in each transfer; in those that bring it a frame it sends nothing.
abbrev sent : List (List ℕ)
sent =
    header_bytes (two_sectors 4 100)
    ∷ (bytes ++ u32_le (spi_crc32 bytes))
    ∷ []
    ∷ header_bytes (two_sectors 4 100)
    ∷ (bytes ++ u32_le 5)
    ∷ []
    ∷ header_bytes (two_sectors 3 100)
    ∷ []
    ∷ header_bytes (two_sectors 5 0)
    ∷ []
    ∷ header_bytes (two_sectors 3 8191)
    ∷ []
    ∷ header_bytes (two_sectors 9 0)
    ∷ []
    ∷ header_bytes (two_sectors 1 0)
    ∷ []
    ∷ header_bytes (two_sectors 2 0)
    ∷ []
    ∷ header_bytes (two_sectors 4 100)
    ∷ []
    ∷ header_bytes other_magic
    ∷ []

abbrev master : Peer
master = record {
  transfer = λ k. record {
    result = if k == 19 || k == 21 then err fail else ok tt;
    bytes = get_or sent k [];
  };
  time_us = λ k. k * 10;
}

fails : (k : ℕ) → (master.transfer k).result ≡ err fail → Fails master k
fails k e = record { error = fail; failed = e }

requests :
    (c start k : ℕ) (e : Option Cmd)
    → c < 256
    → start < 2 ^ 32
    → (master.transfer k).result ≡ ok tt
    → get_or sent k [] ≡ header_bytes (two_sectors c start)
    → cmd_enum (two_sectors c start) ≡ e
    → Requests master (two_sectors c start) e k
unfolding is_valid
requests c start k e small fits done brought decodes = record {
  done = done;
  bytes = brought;
  in_range = two_sectors-InRange c start small fits;
  valid = refl;
  command = decodes;
}

decoded :
    (cmd_enum (two_sectors 4 100) ≡ some write)
    × (cmd_enum (two_sectors 3 100) ≡ some read)
    × (cmd_enum (two_sectors 5 0) ≡ some flush)
    × (cmd_enum (two_sectors 3 8191) ≡ some read)
    × (cmd_enum (two_sectors 9 0) ≡ none)
    × (cmd_enum (two_sectors 1 0) ≡ some get_status)
    × (cmd_enum (two_sectors 2 0) ≡ some get_capacity)
unfolding cmd_enum
decoded = (refl, refl, refl, refl, refl, refl, refl)

script-Asked : AskedAll master 2 8192 Awake script 0
script-Asked =
    let sent_whole : Asked master 2 8192 Awake (ask_write (two_sectors 4 100) here bytes) 0 = (
      requests 4 100 0 (some write) (omega arith) (omega arith) refl refl decoded.0,
      here_accepted,
      refl,
      record { done = refl; brought = refl },
    ) in
    let sent_damaged : Asked master 2 8192 Awake (ask_damaged (two_sectors 4 100) here bytes 5) 3 =
      (
        requests 4 100 3 (some write) (omega arith) (omega arith) refl refl decoded.0,
        here_accepted,
        refl,
        record { done = refl; brought = refl },
        omega arith,
        wrong_word,
      ) in
    let fetched = requests 3 100 6 (some read) (omega arith) (omega arith) refl refl decoded.1 in
    let flushed = requests 5 0 8 (some flush) (omega arith) (omega arith) refl refl decoded.2 in
    let beyond = requests 3 8191 10 (some read) (omega arith) (omega arith) refl refl decoded.3 in
    let unknown = requests 9 0 12 none (omega arith) (omega arith) refl refl decoded.4 in
    let status =
      requests 1 0 14 (some get_status) (omega arith) (omega arith) refl refl decoded.5 in
    let lost = requests 4 100 18 (some write) (omega arith) (omega arith) refl refl decoded.0 in
    let capacity =
      requests 2 0 16 (some get_capacity) (omega arith) (omega arith) refl refl decoded.6 in
    (
      sent_whole,
      (
        sent_damaged,
        (
          (fetched, here_accepted),
          (
            flushed,
            (
              (beyond, beyond_refused),
              (
                unknown,
                (
                  (status, stick_api-IsAwake),
                  (
                    (capacity, stick_api-IsAwake),
                    (
                      (lost, here_accepted, fails 19 refl),
                      (
                        (
                          record { done = refl; brought = refl },
                          other_magic-InRange,
                          other_magic_invalid,
                        ),
                        (fails 21 refl, tt),
                      ),
                    ),
                  ),
                ),
              ),
            ),
          ),
        ),
      ),
    )

serve_rounds_example :
    Option.map {B = Result (Unit {0}) × View}
      (λ r. (r.0, view stick_disk r.1))
      (serve_rounds stick_api idf_codes master 11 stick_drive)
    ≡ some (ok tt, respond_all idf_codes 2 8192 script (stick_disk stick_drive.sys.world, []))
serve_rounds_example =
    serve_rounds_lem stick_api idf_codes master stick_disk StickUp 7 2 8192 stick_api-IsDrive
      (omega arith) (omega arith) (omega arith) script stick_drive stick_drive-IsServing refl
      script-Asked

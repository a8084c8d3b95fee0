-- ===== src/SpiLink/Serve/Session/Asks.antt =====
-- The requests of a session with the service loop of src/spi_link/transport.rs, and the answers of
-- a device that is nothing but its data.
use bindkey_esp.Base.{
  ℕ, ◌+◌, ◌^◌, ◌<◌, ◌≡◌, ◌≢◌, ◌++◌, false, none, some, List, [], ◌∷◌, err, ok, EspErr, invalid_arg,
  invalid_crc, EspCodes, length,
}
use bindkey_esp.Base.Words.{u32_le}
use bindkey_esp.MassStorage.BlockDevice.Store.{sectors, stored}
use bindkey_esp.SpiLink.Protocol.{
  Header, get_status, get_capacity, read, write, flush, max_payload, header_bytes, is_valid,
}
use bindkey_esp.SpiLink.Protocol.Laws.{InRange}
use bindkey_esp.SpiLink.Crc.{spi_crc32}
use bindkey_esp.SpiLink.Chunk.{Chunk, compute_chunk}
use bindkey_esp.SpiLink.Link.{Peer}
use bindkey_esp.SpiLink.Serve.Session.Header.{Requests}
use bindkey_esp.SpiLink.Serve.Session.Probe.{ready_frame, capacity_frame}
use bindkey_esp.SpiLink.Serve.Session.View.{
  View, status_frame, data_frame, payload_frame, count_frame,
}

pub data Ask : Type 0 where
  ask_read : Header → Chunk → Ask
  ask_write : Header → Chunk → (payload : List ℕ) → Ask
  -- A payload with another word than its checksum behind it.
  ask_damaged : Header → Chunk → (payload : List ℕ) → (word : ℕ) → Ask
  ask_flush : Header → Ask
  ask_refused_read : Header → EspErr → Ask
  ask_refused_write : Header → EspErr → Ask
  ask_unknown : Header → Ask
  ask_status : Header → Ask
  ask_capacity : Header → Ask
  -- A payload that does not arrive.
  ask_lost : Header → Chunk → Ask
  -- A header that is not valid, and a transfer that fails.
  ask_invalid : Header → Ask
  ask_failed : Ask

-- What the device makes of a request: the data it holds afterwards, and the frames that it sends.
abbrev pub respond : EspCodes → (bs bc : ℕ) → Ask → View → View
respond codes bs bc (ask_read req c) (disk, frames) =
    (disk, data_frame codes req (sectors disk c.lba c.nblocks) ∷ frames)
respond codes bs bc (ask_write req c payload) (disk, frames) = (
  stored bs c.lba c.nblocks payload disk,
  count_frame codes req c.len ∷ payload_frame c.len ∷ frames,
)
respond codes bs bc (ask_damaged req c payload word) (disk, frames) =
    (disk, status_frame codes req (err invalid_crc) ∷ payload_frame c.len ∷ frames)
respond codes bs bc (ask_flush req) (disk, frames) = (disk, status_frame codes req (ok tt) ∷ frames)
respond codes bs bc (ask_refused_read req e) (disk, frames) =
    (disk, status_frame codes req (err e) ∷ frames)
respond codes bs bc (ask_refused_write req e) (disk, frames) =
    (disk, status_frame codes req (err e) ∷ payload_frame max_payload ∷ frames)
respond codes bs bc (ask_unknown req) (disk, frames) =
    (disk, status_frame codes req (err invalid_arg) ∷ frames)
respond codes bs bc (ask_status req) (disk, frames) = (disk, ready_frame codes req ∷ frames)
respond codes bs bc (ask_capacity req) (disk, frames) =
    (disk, capacity_frame codes req bs bc ∷ frames)
respond codes bs bc (ask_lost req c) (disk, frames) = (disk, payload_frame c.len ∷ frames)
respond codes bs bc (ask_invalid req) v = v
respond codes bs bc ask_failed v = v

abbrev pub respond_all : EspCodes → (bs bc : ℕ) → List Ask → View → View
respond_all codes bs bc [] v = v
respond_all codes bs bc (a ∷ rest) v = respond_all codes bs bc rest (respond codes bs bc a v)

-- The number of the transfer after those of a request that begins at `k`.
abbrev pub next_transfer : Ask → ℕ → ℕ
next_transfer (ask_read req c) k = k + 1 + 1
next_transfer (ask_write req c payload) k = k + 1 + 1 + 1
next_transfer (ask_damaged req c payload word) k = k + 1 + 1 + 1
next_transfer (ask_flush req) k = k + 1 + 1
next_transfer (ask_refused_read req e) k = k + 1 + 1
next_transfer (ask_refused_write req e) k = k + 1 + 1 + 1
next_transfer (ask_unknown req) k = k + 1 + 1
next_transfer (ask_status req) k = k + 1 + 1
next_transfer (ask_capacity req) k = k + 1 + 1
next_transfer (ask_lost req c) k = k + 1 + 1
next_transfer (ask_invalid req) k = k + 1
next_transfer ask_failed k = k + 1

-- The transfer of a number brings these bytes.
pub record Brings (peer : Peer) (bytes : List ℕ) (k : ℕ) : Type 0 where
  pub done : (peer.transfer k).result ≡ ok tt
  pub brought : (peer.transfer k).bytes ≡ bytes

-- The transfer of a number fails.
pub record Fails (peer : Peer) (k : ℕ) : Type 0 where
  pub error : EspErr
  pub failed : (peer.transfer k).result ≡ err error

-- The master makes the request from the transfer `k` on, of a drive of `bc` blocks of `bs` bytes;
-- `awake` is what the requests that ask after the drive want of it.
abbrev pub Asked : Peer → (bs bc : ℕ) → (awake : Type 0) → Ask → (k : ℕ) → Type 0
Asked peer bs bc awake (ask_read req c) k =
    Requests peer req (some read) k × (compute_chunk bs bc req.arg0 req.arg1 req.reserved ≡ ok c)
Asked peer bs bc awake (ask_write req c payload) k =
    Requests peer req (some write) k
    × (compute_chunk bs bc req.arg0 req.arg1 req.reserved ≡ ok c)
    × (length payload ≡ c.len)
    × Brings peer (payload ++ u32_le (spi_crc32 payload)) (k + 1)
Asked peer bs bc awake (ask_damaged req c payload word) k =
    Requests peer req (some write) k
    × (compute_chunk bs bc req.arg0 req.arg1 req.reserved ≡ ok c)
    × (length payload ≡ c.len)
    × Brings peer (payload ++ u32_le word) (k + 1)
    × (word < 2 ^ 32)
    × (word ≢ spi_crc32 payload)
Asked peer bs bc awake (ask_flush req) k = Requests peer req (some flush) k
Asked peer bs bc awake (ask_refused_read req e) k =
    Requests peer req (some read) k × (compute_chunk bs bc req.arg0 req.arg1 req.reserved ≡ err e)
Asked peer bs bc awake (ask_refused_write req e) k =
    Requests peer req (some write) k × (compute_chunk bs bc req.arg0 req.arg1 req.reserved ≡ err e)
Asked peer bs bc awake (ask_unknown req) k = Requests peer req none k
Asked peer bs bc awake (ask_status req) k = Requests peer req (some get_status) k × awake
Asked peer bs bc awake (ask_capacity req) k = Requests peer req (some get_capacity) k × awake
Asked peer bs bc awake (ask_lost req c) k =
    Requests peer req (some write) k
    × (compute_chunk bs bc req.arg0 req.arg1 req.reserved ≡ ok c)
    × Fails peer (k + 1)
Asked peer bs bc awake (ask_invalid req) k =
    Brings peer (header_bytes req) k × InRange req × (is_valid req ≡ false)
Asked peer bs bc awake ask_failed k = Fails peer k

-- The master makes the requests one after the other.
abbrev pub AskedAll : Peer → (bs bc : ℕ) → (awake : Type 0) → List Ask → (k : ℕ) → Type 0
AskedAll peer bs bc awake [] k = Unit
AskedAll peer bs bc awake (a ∷ rest) k =
    Asked peer bs bc awake a k × AskedAll peer bs bc awake rest (next_transfer a k)

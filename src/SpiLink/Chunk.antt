-- ===== src/SpiLink/Chunk.antt =====
-- `SpiLink::compute_chunk` of src/spi_link/transport.rs: which sectors one chunk of a request is.
-- The target's `usize` has 32 bits; the plain `+` on `u32` wraps, as in a release build.
pub mod Bounds
pub mod Tiling
pub mod Partition
use bindkey_esp.Base.{
  ℕ, ◌+◌, ◌-◌, ◌*◌, ◌/◌, ◌%◌, ◌^◌, min, ◌||◌, not, ◌==◌, ltb, leb, if◌then◌else◌, Result, ok, err,
  invalid_arg, invalid_size, invalid_state,
}
use bindkey_esp.SpiLink.Protocol.{max_payload}

-- The first sector, the number of sectors and the number of bytes.
pub record Chunk : Type 0 where
  pub lba : ℕ
  pub nblocks : ℕ
  pub len : ℕ

-- The part after the products are known not to overflow.
unfoldable pub chunk_at : (bs bc lba_start total_bytes offset_bytes : ℕ) → Result Chunk
chunk_at bs bc lba_start total_bytes offset_bytes =
    let chunk_len = min max_payload (total_bytes - offset_bytes) in
    let lba_i = (lba_start + offset_bytes / bs % 2 ^ 32) % 2 ^ 32 in
    let nblocks_i = chunk_len / bs % 2 ^ 32 in
    if not (chunk_len % bs == 0)
    then err invalid_size
    else if bc == 0
    then err invalid_state
    else if leb (2 ^ 32) (lba_i + nblocks_i) || ltb bc (lba_i + nblocks_i)
    then err invalid_arg
    else ok (record { lba = lba_i; nblocks = nblocks_i; len = chunk_len })

unfoldable pub compute_chunk : (bs bc lba_start nblocks_total chunk_idx : ℕ) → Result Chunk
compute_chunk bs bc lba_start nblocks_total chunk_idx =
    if bs == 0
    then err invalid_state
    else if ltb max_payload bs
    then err invalid_size
    else if not (max_payload % bs == 0)
    then err invalid_state
    else if leb (2 ^ 32) (nblocks_total * bs)
    then err invalid_size
    else if leb (2 ^ 32) (chunk_idx * max_payload)
    then err invalid_size
    else if leb (nblocks_total * bs) (chunk_idx * max_payload)
    then err invalid_arg
    else chunk_at bs bc lba_start (nblocks_total * bs) (chunk_idx * max_payload)

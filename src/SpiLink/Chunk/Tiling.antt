-- ===== src/SpiLink/Chunk/Tiling.antt =====
-- The chunks of a request that fits the drive: each index is accepted and they tile the request
-- (src/spi_link/transport.rs, `compute_chunk`).
use native.Mathlib.Nat.{
  mod-add-div', mul-div_cancel, mul-mod_left, mul_assoc, mul_comm, mul-sub, mul-le-mul_right,
  mul-le-mul_left, min-eq_left, min-eq_right,
}
use native.Mathlib.Decide.{dec_le}
use bindkey_esp.Base.{
  ℕ, ◌+◌, ◌-◌, ◌*◌, ◌/◌, ◌%◌, ◌^◌, ◌≤◌, ◌<◌, min, ◌≡◌, ap, arith, ok, err, invalid_arg,
}
use bindkey_esp.SpiLink.Protocol.{max_payload}
use bindkey_esp.SpiLink.Chunk.{Chunk, chunk_at, compute_chunk}

-- The number of sectors in a full payload.
abbrev pub per_chunk : ℕ → ℕ
per_chunk bs = max_payload / bs

-- The chunk of index `idx` of a request, as the protocol means it.
abbrev pub tile : (bs lba_start nblocks_total idx : ℕ) → Chunk
tile bs lba_start nblocks_total idx =
    let count = min (per_chunk bs) (nblocks_total - idx * per_chunk bs) in
    record { lba = lba_start + idx * per_chunk bs; nblocks = count; len = count * bs }

min-mul : (a b c : ℕ) → min (a * c) (b * c) ≡ min a b * c
min-mul a b c = elim (dec_le a b) [
  | yes h ↦ rw (min-eq_left (mul-le-mul_right c h), min-eq_left h)
  | no h ↦
      let le : b ≤ a = omega arith in rw (min-eq_right (mul-le-mul_right c le), min-eq_right le)
]

sub-mul : (a b c : ℕ) → (a - b) * c ≡ a * c - b * c
sub-mul a b c = rw (mul_comm (a - b) c, mul-sub c a b, mul_comm c a, mul_comm c b)

module _ (bs bc lba_start nblocks_total idx : ℕ) (pos : 0 < bs) (le : bs ≤ max_payload)
    (divides : max_payload % bs ≡ 0) (total_fits : nblocks_total * bs < 2 ^ 32) where
  full : per_chunk bs * bs ≡ max_payload
  full = omega (arith, mod-add-div' max_payload bs, divides)

  offset : idx * max_payload ≡ idx * per_chunk bs * bs
  offset = omega (arith, ap (λ (t : ℕ). idx * t) full, mul_assoc idx (per_chunk bs) bs)

  -- For a block size that divides a full payload and a request of less than 2 ^ 32 bytes, an index
  -- past the end of the request, whose byte offset fits 32 bits, is refused as an invalid argument.
  compute_chunk_past_end :
      nblocks_total ≤ idx * per_chunk bs
      → idx * max_payload < 2 ^ 32
      → compute_chunk bs bc lba_start nblocks_total idx ≡ err invalid_arg
  unfolding compute_chunk
  compute_chunk_past_end past fits =
      let beyond : nblocks_total * bs ≤ idx * max_payload = rw offset (mul-le-mul_right bs past) in
      ground arith

  module _ (before_end : idx * per_chunk bs < nblocks_total) where
    abbrev count : ℕ
    count = min (per_chunk bs) (nblocks_total - idx * per_chunk bs)

    chunk_len : min max_payload (nblocks_total * bs - idx * max_payload) ≡ count * bs
    chunk_len = omega (
      arith,
      offset,
      full,
      min-mul (per_chunk bs) (nblocks_total - idx * per_chunk bs) bs,
      sub-mul nblocks_total (idx * per_chunk bs) bs,
    )

    first : idx * max_payload / bs ≡ idx * per_chunk bs
    first = rw offset (mul-div_cancel (idx * per_chunk bs) pos)

    in_request : idx * max_payload < nblocks_total * bs
    in_request = omega (arith, offset, mul-le-mul_right bs before_end)

    blocks : count ≤ nblocks_total - idx * per_chunk bs
    blocks = omega arith

    short : count * bs ≤ max_payload
    short = omega (arith, chunk_len)

    blocks_pos : count ≤ count * bs
    blocks_pos = omega (arith, mul-le-mul_left count pos)

    entered :
        compute_chunk bs bc lba_start nblocks_total idx
        ≡ chunk_at bs bc lba_start (nblocks_total * bs) (idx * max_payload)
    unfolding compute_chunk
    entered = ground (arith, in_request)

    -- For a block size that divides a full payload and a request of less than 2 ^ 32 bytes that
    -- lies on a drive of less than 2 ^ 32 blocks, the chunk at every index before the request's
    -- end is accepted and has exactly the sectors that belong to the index.
    pub compute_chunk-tile :
        lba_start + nblocks_total ≤ bc
        → bc < 2 ^ 32
        → compute_chunk bs bc lba_start nblocks_total idx ≡ ok (tile bs lba_start nblocks_total idx)
    unfolding chunk_at
    compute_chunk-tile on_drive bc_fits =
        rw (entered, chunk_len, first, mul-mod_left count bs, mul-div_cancel count pos)
          (ground (arith, blocks))

    -- The sector address of a chunk is computed modulo 2 ^ 32 and only its end is compared with
    -- the capacity: where a request starts beyond the end of the drive and the address of a chunk
    -- wraps to one that ends on the drive, the chunk is accepted and is made of the drive's first
    -- sectors. The block size divides a full payload, and the request has less than 2 ^ 32 bytes.
    pub compute_chunk_wraps :
        lba_start < 2 ^ 32
        → bc < lba_start
        → 2 ^ 32 ≤ lba_start + idx * per_chunk bs
        → lba_start + idx * per_chunk bs + count ≤ 2 ^ 32 + bc
        → compute_chunk bs bc lba_start nblocks_total idx
          ≡ ok (record {
            lba = lba_start + idx * per_chunk bs - 2 ^ 32;
            nblocks = count;
            len = count * bs;
          })
    unfolding chunk_at
    compute_chunk_wraps start_fits off_drive wraps ends =
        rw (entered, chunk_len, first, mul-mod_left count bs, mul-div_cancel count pos)
          (ground (arith, short, blocks_pos))

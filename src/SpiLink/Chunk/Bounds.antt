-- ===== src/SpiLink/Chunk/Bounds.antt =====
-- What an accepted chunk is (src/spi_link/transport.rs, `compute_chunk`).
use native.Mathlib.Nat.{mod-add-div', div-le_self}
use bindkey_esp.Base.{ℕ, ◌+◌, ◌-◌, ◌*◌, ◌/◌, ◌%◌, ◌^◌, ◌≤◌, ◌<◌, min, ◌≡◌, arith, ok}
use bindkey_esp.SpiLink.Protocol.{max_payload}
use bindkey_esp.SpiLink.Chunk.{Chunk, chunk_at, compute_chunk}

-- The tests that an accepted chunk has passed, and how it was computed.
pub record Accepted (bs bc lba_start nblocks_total chunk_idx : ℕ) (c : Chunk) : Type 0 where
  pub bs_pos : 0 < bs
  pub bs_le : bs ≤ max_payload
  pub divides : max_payload % bs ≡ 0
  pub total_fits : nblocks_total * bs < 2 ^ 32
  pub inside : chunk_idx * max_payload < nblocks_total * bs
  pub whole : c.len % bs ≡ 0
  pub len_eq : c.len ≡ min max_payload (nblocks_total * bs - chunk_idx * max_payload)
  pub lba_eq : c.lba ≡ (lba_start + chunk_idx * max_payload / bs % 2 ^ 32) % 2 ^ 32
  pub nblocks_eq : c.nblocks ≡ c.len / bs % 2 ^ 32
  pub end_fits : c.lba + c.nblocks < 2 ^ 32
  pub end_le : c.lba + c.nblocks ≤ bc

pub compute_chunk-Accepted :
    (bs bc lba_start nblocks_total chunk_idx : ℕ) {c : Chunk}
    → compute_chunk bs bc lba_start nblocks_total chunk_idx ≡ ok c
    → Accepted bs bc lba_start nblocks_total chunk_idx c
unfolding compute_chunk chunk_at
compute_chunk-Accepted bs bc lba_start nblocks_total chunk_idx e = ground arith

-- The sectors of the chunk lie on the drive, and the bytes in the payload buffer.
pub record InBounds (bs bc : ℕ) (c : Chunk) : Type 0 where
  pub block_size_pos : 0 < bs
  pub nonempty : 0 < c.nblocks
  pub on_drive : c.lba + c.nblocks ≤ bc
  pub no_wrap : c.lba + c.nblocks < 2 ^ 32
  pub bytes : c.len ≡ c.nblocks * bs
  pub fits : c.len ≤ max_payload

-- Whatever the master asks for, an accepted chunk is a nonempty run of whole sectors on the drive,
-- its end does not wrap, and its bytes are those of its sectors and fit the payload buffer.
pub compute_chunk-InBounds :
    (bs bc lba_start nblocks_total chunk_idx : ℕ) {c : Chunk}
    → compute_chunk bs bc lba_start nblocks_total chunk_idx ≡ ok c
    → InBounds bs bc c
compute_chunk-InBounds bs bc lba_start nblocks_total chunk_idx {c} e =
    let a = compute_chunk-Accepted bs bc lba_start nblocks_total chunk_idx e in
    let pos : 0 < c.len = omega (arith, a.len_eq, a.inside) in
    let le : c.len ≤ max_payload = omega (arith, a.len_eq) in
    let count : c.nblocks ≡ c.len / bs = omega (arith, a.nblocks_eq, div-le_self c.len bs) in
    let bytes : c.len ≡ c.nblocks * bs = rw count (omega (arith, mod-add-div' c.len bs, a.whole)) in
    record {
      block_size_pos = a.bs_pos;
      nonempty = grind (arith, bytes, pos);
      on_drive = a.end_le;
      no_wrap = a.end_fits;
      bytes = bytes;
      fits = le;
    }

-- ===== src/SpiLink/Chunk/Partition.antt =====
-- The chunks of a request are a partition of its sectors (src/spi_link/transport.rs).
use native.Mathlib.Decide.{dec_le}
use native.Mathlib.Nat.{
  div-eq_of_lt-le, lt-div-mul-add, div-mul-le_self, mod-add-div', mul-le-mul_right, mul_assoc,
}
use bindkey_esp.Base.{
  ℕ, ◌+◌, ◌*◌, ◌/◌, ◌^◌, ◌≤◌, ◌<◌, ◌≡◌, ◌↔◌, sym, ap, ◌∙◌, ok, err, Result, arith,
}
use bindkey_esp.SpiLink.Protocol.{max_payload}
use bindkey_esp.SpiLink.Chunk.{Chunk, compute_chunk}
use bindkey_esp.SpiLink.Chunk.Bounds.{compute_chunk-Accepted}
use bindkey_esp.SpiLink.Chunk.Tiling.{per_chunk, tile, compute_chunk-tile}

module _ (bs lba_start n k : ℕ) (per_pos : 0 < per_chunk bs) (inside : k < n) where
  -- Each sector of a request is in exactly one chunk: that of the index that the division by the
  -- sectors of a full payload gives.
  tile_partition :
      (idx : ℕ)
      → ((tile bs lba_start n idx).lba ≤ lba_start + k)
          × (lba_start + k < (tile bs lba_start n idx).lba + (tile bs lba_start n idx).nblocks)
        ↔ (idx ≡ k / per_chunk bs)
  tile_partition idx = (forth, back)
    where
      forth :
          ((tile bs lba_start n idx).lba ≤ lba_start + k)
            × (lba_start + k < (tile bs lba_start n idx).lba + (tile bs lba_start n idx).nblocks)
          → idx ≡ k / per_chunk bs
      forth h = sym (div-eq_of_lt-le (per_chunk bs) (omega arith) (omega arith))

      back :
          idx ≡ k / per_chunk bs
          → ((tile bs lba_start n idx).lba ≤ lba_start + k)
            × (lba_start + k < (tile bs lba_start n idx).lba + (tile bs lba_start n idx).nblocks)
      back e =
          rw e (omega (arith, div-mul-le_self k (per_chunk bs), lt-div-mul-add {a = k} per_pos))

accepted_or : Chunk → Result Chunk → Chunk
accepted_or d (ok c) = c
accepted_or d (err e) = d

-- Among the chunks that are accepted for a request on a drive of less than 2 ^ 32 blocks, a sector
-- of the request is in exactly the one whose index is the sector's number divided by the sectors
-- of a full payload.
pub compute_chunk_partition :
    (bs bc lba_start n k idx : ℕ) {c : Chunk}
    → lba_start + n ≤ bc
    → bc < 2 ^ 32
    → k < n
    → compute_chunk bs bc lba_start n idx ≡ ok c
    → (c.lba ≤ lba_start + k) × (lba_start + k < c.lba + c.nblocks) ↔ (idx ≡ k / per_chunk bs)
unfolding accepted_or
compute_chunk_partition bs bc lba_start n k idx {c} on_drive fits inside accepted =
    let a = compute_chunk-Accepted bs bc lba_start n idx accepted in
    let full : per_chunk bs * bs ≡ max_payload =
      omega (arith, mod-add-div' max_payload bs, a.divides) in
    let per_pos : 0 < per_chunk bs = grind (arith, full) in
    let before_end : idx * per_chunk bs < n = elim (dec_le n (idx * per_chunk bs)) [
      | yes past ↦ absurd (
          omega (
            arith,
            a.inside,
            mul-le-mul_right bs past,
            mul_assoc idx (per_chunk bs) bs,
            ap (λ (t : ℕ). idx * t) full,
          ))
      | no h ↦ omega arith
    ] in
    let chunk =
      compute_chunk-tile bs bc lba_start n idx a.bs_pos a.bs_le a.divides a.total_fits before_end
        on_drive fits in
    let same : tile bs lba_start n idx ≡ c = ap (accepted_or c) (sym chunk ∙ accepted) in
    rw⁻¹ same (tile_partition bs lba_start n k per_pos inside idx)

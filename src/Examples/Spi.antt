-- ===== src/Examples/Spi.antt =====
-- The SPI link at concrete inputs.
use bindkey_esp.Base.{◌+◌, ◌/◌, ◌≤◌, ◌<◌, ◌≡◌, ◌≢◌, ◌↔◌, refl, arith, [], ◌∷◌, ok}
use bindkey_esp.SpiLink.Protocol.{Header, max_payload}
use bindkey_esp.SpiLink.Crc.{spi_crc32}
use bindkey_esp.SpiLink.Crc.Detects.{spi_crc32_detects_byte}
use bindkey_esp.SpiLink.Chunk.{Chunk, chunk_at, compute_chunk}
use bindkey_esp.SpiLink.Chunk.Bounds.{InBounds, compute_chunk-InBounds}
use bindkey_esp.SpiLink.Chunk.Tiling.{per_chunk, tile, compute_chunk-tile, compute_chunk_wraps}
use bindkey_esp.SpiLink.Chunk.Partition.{compute_chunk_partition}

-- The check value of the CRC-32 of the digits 1 to 9.
spi_crc32_digits : spi_crc32 (49 ∷ 50 ∷ 51 ∷ 52 ∷ 53 ∷ 54 ∷ 55 ∷ 56 ∷ 57 ∷ []) ≡ 0xCBF4_3926
unfolding spi_crc32
spi_crc32_digits = refl

abbrev pub request : Header
request = record {
  magic = (0x42, 0x4B);
  ver = 1;
  cmd = 3;
  seq = 7;
  reserved = 0;
  arg0 = 0;
  arg1 = 8;
}

spi_crc32_detects_byte_example : spi_crc32 (1 ∷ 2 ∷ 3 ∷ []) ≢ spi_crc32 (1 ∷ 130 ∷ 3 ∷ [])
spi_crc32_detects_byte_example =
    spi_crc32_detects_byte (1 ∷ []) 2 130 (3 ∷ []) (omega arith, tt) (omega arith) (omega arith)
      (omega arith, tt) (ground arith)

-- Eight sectors of 512 bytes from sector 2 of a drive of 100, in one chunk.
abbrev pub eight_sectors : Chunk
eight_sectors = record { lba = 2; nblocks = 8; len = 4096 }

eight_sectors_accepted : compute_chunk 512 100 2 8 0 ≡ ok eight_sectors
unfolding compute_chunk chunk_at
eight_sectors_accepted = refl

compute_chunk-InBounds_example : InBounds 512 100 eight_sectors
compute_chunk-InBounds_example = compute_chunk-InBounds 512 100 2 8 0 eight_sectors_accepted

compute_chunk-tile_example : compute_chunk 512 100 2 8 0 ≡ ok (tile 512 2 8 0)
compute_chunk-tile_example =
    compute_chunk-tile 512 100 2 8 0 (omega arith) (omega arith) refl (omega arith) (omega arith)
      (omega arith) (omega arith)

compute_chunk_partition_example :
    (eight_sectors.lba ≤ 2 + 5) × (2 + 5 < eight_sectors.lba + eight_sectors.nblocks)
    ↔ (0 ≡ 5 / per_chunk 512)
compute_chunk_partition_example =
    compute_chunk_partition 512 100 2 8 5 0 (omega arith) (omega arith) (omega arith)
      eight_sectors_accepted

-- A request from the last sector number that 32 bits can hold, on a drive of 100 sectors.
compute_chunk_wraps_example :
    compute_chunk max_payload 100 0xFFFF_FFFF 3 1
    ≡ ok (record { lba = 0; nblocks = 1; len = max_payload })
compute_chunk_wraps_example =
    compute_chunk_wraps max_payload 100 0xFFFF_FFFF 3 1 (omega arith) (omega arith) refl
      (omega arith) (omega arith) (omega arith) (omega arith) (omega arith) (omega arith)

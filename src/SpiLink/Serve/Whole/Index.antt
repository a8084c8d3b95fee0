-- ===== src/SpiLink/Serve/Whole/Index.antt =====
-- The header of a chunk of a request (src/spi_link/transport.rs).
use native.Mathlib.Nat.{mul-le-mul_right}
use bindkey_esp.Base.{ℕ, suc, ◌+◌, ◌*◌, ◌%◌, ◌^◌, ◌<◌, ◌≡◌, arith}
use bindkey_esp.SpiLink.Protocol.{Header}
use bindkey_esp.SpiLink.Chunk.Tiling.{per_chunk}

-- The request's header with the index of a chunk, a `u16`.
abbrev pub at_index : Header → ℕ → Header
at_index req idx = record req { reserved = idx % 2 ^ 16 }

-- Where a request needs `n` chunks, every index before `n` starts inside it.
pub index_inside :
    (bs : ℕ) (req : Header) (n : ℕ)
    → n * per_chunk bs < req.arg1 + per_chunk bs
    → (k : ℕ) → k < n
    → k * per_chunk bs < req.arg1
index_inside bs req n needed k below =
    let step : suc k * per_chunk bs ≡ k * per_chunk bs + per_chunk bs = grind arith in
    omega (arith, step, needed, mul-le-mul_right (per_chunk bs) below)

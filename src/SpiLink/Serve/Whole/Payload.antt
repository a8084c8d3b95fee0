-- ===== src/SpiLink/Serve/Whole/Payload.antt =====
-- The pieces of the payload of a whole WRITE of src/spi_link/transport.rs, and what they make of
-- the drive when they are stored one after the other.
use mathlib.Core.Path.{fun_ext}
use native.Mathlib.Nat.{mul-le-mul_right}
use bindkey_esp.Base.{
  ℕ, zero, suc, ◌+◌, ◌-◌, ◌*◌, ◌<◌, ◌≤◌, min, ◌≡◌, refl, ap, ◌∙◌, arith, inl, inr, Bool-cases, ◌&&◌,
  true, false, List, [], ◌∷◌, length, take, drop, ltb, leb, if◌then◌else◌, length-take, length-drop,
}
use bindkey_esp.MassStorage.BlockDevice.Store.{Disk, stored}
use bindkey_esp.MassStorage.BlockDevice.Store.ReadBack.{drop-add}
use bindkey_esp.SpiLink.Protocol.{Header}
use bindkey_esp.SpiLink.Chunk.Tiling.{per_chunk, tile}

take-take_within : (k m : ℕ) (ys : List ℕ) → k ≤ m → take k (take m ys) ≡ take k ys
take-take_within zero m ys h = refl
take-take_within (suc k) zero ys h = absurd (omega (arith, h))
take-take_within (suc k) (suc m) [] h = refl
take-take_within (suc k) (suc m) (y ∷ ys) h =
    ap (λ r. y ∷ r) (take-take_within k m ys (omega (arith, h)))

-- A window inside a prefix.
take-drop_within :
    (i k m : ℕ) (ys : List ℕ) → i + k ≤ m → take k (drop i (take m ys)) ≡ take k (drop i ys)
take-drop_within zero k m ys h = take-take_within k m ys (omega (arith, h))
take-drop_within (suc i) k zero ys h = absurd (omega (arith, h))
take-drop_within (suc i) k (suc m) [] h = refl
take-drop_within (suc i) k (suc m) (y ∷ ys) h = take-drop_within i k m ys (omega (arith, h))

module _ (bs : ℕ) (req : Header) (payload : List ℕ) where
  -- The bytes of the chunk of an index.
  abbrev pub piece : ℕ → List ℕ
  piece idx = take (tile bs req.arg0 req.arg1 idx).len (drop (idx * per_chunk bs * bs) payload)

  pub length-piece :
      (idx : ℕ)
      → length payload ≡ req.arg1 * bs
      → idx * per_chunk bs < req.arg1
      → length (piece idx) ≡ (tile bs req.arg0 req.arg1 idx).len
  length-piece idx sized before =
      let offset = idx * per_chunk bs in
      let left = req.arg1 - offset in
      let count = min (per_chunk bs) left in
      let sum : req.arg1 ≡ offset + left = omega (arith, before) in
      let bytes : req.arg1 * bs ≡ offset * bs + left * bs =
        ap (λ t. t * bs) sum ∙ mul_distrib offset left in
      let short : count ≤ left = omega arith in
      omega (
        arith,
        length-take (count * bs) (drop (offset * bs) payload),
        length-drop (offset * bs) payload,
        sized,
        bytes,
        mul-le-mul_right bs short,
      )
    where
      mul_distrib : (m n : ℕ) → (m + n) * bs ≡ m * bs + n * bs
      mul_distrib m n = grind arith

  -- The drive when `n` pieces from an index on have been stored.
  abbrev pub stored_chunks : (idx n : ℕ) → Disk → Disk
  stored_chunks idx zero disk = disk
  stored_chunks idx (suc n) disk =
      let c = tile bs req.arg0 req.arg1 idx in
      stored_chunks (suc idx) n (stored bs c.lba c.nblocks (piece idx) disk)

  -- A sector of a piece is a sector of the payload.
  window :
      (idx j : ℕ)
      → j < (tile bs req.arg0 req.arg1 idx).nblocks
      → take bs (drop (j * bs) (piece idx)) ≡ take bs (drop ((idx * per_chunk bs + j) * bs) payload)
  window idx j h =
      let count = (tile bs req.arg0 req.arg1 idx).nblocks in
      let offset = idx * per_chunk bs * bs in
      let next : suc j * bs ≡ j * bs + bs = omega arith in
      let within : j * bs + bs ≤ count * bs = omega (arith, next, mul-le-mul_right bs h) in
      let sum : offset + j * bs ≡ (idx * per_chunk bs + j) * bs = grind arith in
      take-drop_within (j * bs) bs (count * bs) (drop offset payload) within
      ∙ ap (λ r. take bs r) (drop-add offset (j * bs) payload)
      ∙ ap (λ k. take bs (drop k payload)) sum

  -- The drive with the payload from the chunk of an index on.
  abbrev from_chunk : ℕ → Disk → Disk
  from_chunk idx disk a =
      if leb (req.arg0 + idx * per_chunk bs) a && ltb a (req.arg0 + req.arg1)
      then take bs (drop ((a - req.arg0) * bs) payload)
      else disk a

  from_chunk-stored :
      (idx : ℕ) (disk : Disk) (a : ℕ)
      → from_chunk
          (suc idx)
          (stored bs
            (req.arg0 + idx * per_chunk bs)
            (tile bs req.arg0 req.arg1 idx).nblocks
            (piece idx)
            disk)
          a
        ≡ from_chunk idx disk a
  from_chunk-stored idx disk a =
      let p = per_chunk bs in
      let first = req.arg0 + idx * p in
      let count = (tile bs req.arg0 req.arg1 idx).nblocks in
      let step : suc idx * p ≡ idx * p + p = grind arith in
      elim (Bool-cases (leb (req.arg0 + suc idx * p) a && ltb a (req.arg0 + req.arg1))) [
        | inl later ↦
            let here : (leb first a && ltb a (req.arg0 + req.arg1)) ≡ true =
              ground (arith, later, step) in
            rw (later, here) refl
        | inr not_later ↦ elim (Bool-cases (leb first a && ltb a (first + count))) [
          | inl inside ↦
              let here : (leb first a && ltb a (req.arg0 + req.arg1)) ≡ true =
                ground (arith, inside, step) in
              let within : a - first < count = ground (arith, inside) in
              let position : idx * p + (a - first) ≡ a - req.arg0 = ground (arith, inside) in
              rw (not_later, inside, here)
                (window idx (a - first) within ∙ ap (λ k. take bs (drop (k * bs) payload)) position)
          | inr outside ↦
              let not_here : (leb first a && ltb a (req.arg0 + req.arg1)) ≡ false =
                ground (arith, outside, not_later, step) in
              rw (not_later, outside, not_here) refl
        ]
      ]

  stored_chunks-at :
      (idx n : ℕ) (disk : Disk) (a : ℕ)
      → req.arg1 - idx * per_chunk bs ≤ n * per_chunk bs
      → stored_chunks idx n disk a ≡ from_chunk idx disk a
  stored_chunks-at idx zero disk a past =
      let not_here : (leb (req.arg0 + idx * per_chunk bs) a && ltb a (req.arg0 + req.arg1))
          ≡ false =
        let none_left : req.arg1 - idx * per_chunk bs ≤ 0 = omega arith in
        ground (arith, none_left) in
      rw not_here refl
  stored_chunks-at idx (suc n) disk a rest =
      let step : suc idx * per_chunk bs ≡ idx * per_chunk bs + per_chunk bs = grind arith in
      let step_n : suc n * per_chunk bs ≡ n * per_chunk bs + per_chunk bs = grind arith in
      stored_chunks-at (suc idx) n _ a (omega (arith, step, step_n, rest))
      ∙ from_chunk-stored idx disk a

  -- All the pieces make up the payload.
  pub stored_chunks-stored :
      (n : ℕ) (disk : Disk)
      → req.arg1 ≤ n * per_chunk bs
      → stored_chunks 0 n disk ≡ stored bs req.arg0 req.arg1 payload disk
  stored_chunks-stored n disk enough = fun_ext λ a.
      stored_chunks-at 0 n disk a (omega (arith, enough))
      ∙ ap
          (λ k.
            if leb k a && ltb a (req.arg0 + req.arg1)
            then take bs (drop ((a - req.arg0) * bs) payload)
            else disk a)
          (omega arith)

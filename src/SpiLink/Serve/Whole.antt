-- ===== src/SpiLink/Serve/Whole.antt =====
-- A whole READ of src/spi_link/transport.rs: the master asks for the chunks of a request one after
-- the other, and puts their data together.
pub mod Index
pub mod Payload
pub mod Stored
use mathlib.Core.Option
use mathlib.Core.List.{append_assoc}
use native.Mathlib.Nat.{mul-le-mul_right}
use native.Mathlib.Decide.{dec_le}
use bindkey_esp.Base.{
  ℕ, zero, suc, ◌+◌, ◌-◌, ◌*◌, ◌%◌, ◌^◌, ◌<◌, ◌≤◌, min, ◌≡◌, refl, sym, ap, ◌∙◌, arith, some, List,
  [], ◌++◌, EspCodes,
}
use bindkey_esp.Base.Action.{Act, pure, ◌>>◌}
use bindkey_esp.MassStorage.Types.{MscApi, Effect}
use bindkey_esp.MassStorage.BlockDevice.Store.{Disk, sectors, IsDrive}
use bindkey_esp.SpiLink.Protocol.{Header, max_payload}
use bindkey_esp.SpiLink.Chunk.{compute_chunk}
use bindkey_esp.SpiLink.Chunk.Tiling.{per_chunk, tile, compute_chunk-tile}
use bindkey_esp.SpiLink.Link.{LinkSt, Peer}
use bindkey_esp.SpiLink.Serve.{serve_read}
use bindkey_esp.SpiLink.Serve.Steps.{IsServing}
use bindkey_esp.SpiLink.Serve.Whole.Index.{at_index, index_inside}
use bindkey_esp.SpiLink.Serve.Read.Request.{reply, serve_read-Served}

same_sectors : (disk : Disk) {a b m n : ℕ} → a ≡ b → m ≡ n → sectors disk a m ≡ sectors disk b n
same_sectors disk p q = cc

sectors-add :
    (disk : Disk) (lba m n : ℕ)
    → sectors disk lba (m + n) ≡ sectors disk lba m ++ sectors disk (lba + m) n
sectors-add disk lba zero n = same_sectors disk (omega arith) (omega arith)
sectors-add disk lba (suc m) n =
    let grown : suc m + n ≡ suc (m + n) = omega arith in
    let moved : suc lba + m ≡ lba + suc m = omega arith in
    same_sectors disk {a = lba} refl grown
    ∙ ap (λ r. disk lba ++ r)
        (sectors-add disk (suc lba) m n
          ∙ ap (λ r. sectors disk (suc lba) m ++ r) (same_sectors disk {m = n} moved refl))
    ∙ sym (append_assoc (disk lba) (sectors disk (suc lba) m) (sectors disk (lba + suc m) n))

module _ (bs : ℕ) (req : Header) (disk : Disk) where
  -- The data of the chunk of an index, as the protocol means it.
  abbrev pub chunk_data : ℕ → List ℕ
  chunk_data idx = let c = tile bs req.arg0 req.arg1 idx in sectors disk c.lba c.nblocks

  -- The data of `n` chunks from an index on, put together.
  abbrev pub joined : (idx n : ℕ) → List ℕ
  joined idx zero = []
  joined idx (suc n) = chunk_data idx ++ joined (suc idx) n

  -- What the replies of `n` chunks from an index on add to what was done to the outside.
  abbrev pub replies : EspCodes → (idx n : ℕ) → List Effect → List Effect
  replies codes idx zero es = es
  replies codes idx (suc n) es =
      replies codes (suc idx) n (reply codes (at_index req idx) (chunk_data idx) es)

  pub joined-sectors :
      (idx n : ℕ)
      → req.arg1 - idx * per_chunk bs ≤ n * per_chunk bs
      → joined idx n ≡ sectors disk (req.arg0 + idx * per_chunk bs) (req.arg1 - idx * per_chunk bs)
  joined-sectors idx zero past =
      let none_left : 0 ≡ req.arg1 - idx * per_chunk bs = omega arith in
      same_sectors disk {a = req.arg0 + idx * per_chunk bs} refl none_left
  joined-sectors idx (suc n) rest =
      let p = per_chunk bs in
      let first = req.arg0 + idx * p in
      let count = min p (req.arg1 - idx * p) in
      let left = req.arg1 - suc idx * p in
      let step : suc idx * p ≡ idx * p + p = grind arith in
      let step_n : suc n * p ≡ n * p + p = grind arith in
      let later = joined-sectors (suc idx) n (omega (arith, step, step_n, rest)) in
      let whole : count + left ≡ req.arg1 - idx * p = omega (arith, step) in
      let next : sectors disk (req.arg0 + suc idx * p) left ≡ sectors disk (first + count) left =
        elim (dec_le p (req.arg1 - idx * p)) [
          | yes full ↦
              let there : req.arg0 + suc idx * p ≡ first + count = omega (arith, step) in
              same_sectors disk {m = left} there refl
          | no short ↦
              let done : left ≡ 0 = omega (arith, step) in
              same_sectors disk {a = req.arg0 + suc idx * p} refl done
              ∙ sym (same_sectors disk {a = first + count} refl done)
        ] in
      ap (λ r. chunk_data idx ++ r) (later ∙ next)
      ∙ sym (sectors-add disk first count left)
      ∙ same_sectors disk {a = first} refl whole

module _ {W : Type 0} (api : MscApi W) (codes : EspCodes) (peer : Peer) where
  -- The master asks for `n` chunks from an index on.
  abbrev pub read_chunks : Header → (idx n : ℕ) → Act (LinkSt W) (Unit {0})
  read_chunks req idx zero = pure tt
  read_chunks req idx (suc n) = do
    serve_read api codes peer (at_index req idx)
    read_chunks req (suc idx) n

  module _ (disk_of : W → Disk) (up : W → Type 0) (h bs bc : ℕ)
      (drive : IsDrive api h bs bc disk_of up) (fits : bc < 2 ^ 32) (pos : 0 < bs)
      (le : bs ≤ max_payload) (divides : max_payload % bs ≡ 0) where
    read_chunks-replies :
        (req : Header) (idx n : ℕ) (s : LinkSt W)
        → IsServing up h bs bc s
        → req.arg1 * bs < 2 ^ 32
        → req.arg0 + req.arg1 ≤ bc
        → idx + n ≤ 2 ^ 16
        → ((k : ℕ) → k < idx + n → k * per_chunk bs < req.arg1)
        → Option.map (λ r. r.1.sys.effects) (read_chunks req idx n s)
          ≡ some (replies bs req (disk_of s.sys.world) codes idx n s.sys.effects)
    read_chunks-replies req idx zero s v total on_drive short inside = refl
    read_chunks-replies req idx (suc n) s v total on_drive short inside =
        let index : idx % 2 ^ 16 ≡ idx = omega (arith, short) in
        let one =
          serve_read-Served api codes peer disk_of up h bs bc drive fits (at_index req idx) s
            (tile bs req.arg0 req.arg1 idx) v
            (ap (λ i. compute_chunk bs bc req.arg0 req.arg1 i) index
              ∙ compute_chunk-tile bs bc req.arg0 req.arg1 idx pos le divides total
                  (inside idx (omega arith)) on_drive fits) in
        let rest =
          read_chunks-replies req (suc idx) n one.after one.serving total on_drive
            (omega (arith, short)) (λ k below. inside k (omega (arith, below))) in
        rw (one.returns) (
          rest
          ∙ ap (λ disk. some (replies bs req disk codes (suc idx) n one.after.sys.effects))
              one.same_data
          ∙ ap (λ es. some (replies bs req (disk_of s.sys.world) codes (suc idx) n es)) one.sent)

    -- A whole READ offers the master the sectors that it asked for: with the driver there, buffers
    -- of their sizes, an open device that is up and serves every command on sectors in its reach,
    -- a block size that divides a full payload and a drive of less than 2 ^ 32 blocks, a request
    -- of less than 2 ^ 32 bytes for sectors on the drive is answered by one reply for each of its
    -- chunks, in their order, where the master asks for exactly as many chunks as the request
    -- needs, at most 2 ^ 16; the data of the replies put together is the sectors of the request,
    -- and nothing else happens to the outside.
    pub read_chunks_lem :
        (req : Header) (n : ℕ) (s : LinkSt W)
        → IsServing up h bs bc s
        → req.arg1 * bs < 2 ^ 32
        → req.arg0 + req.arg1 ≤ bc
        → req.arg1 ≤ n * per_chunk bs
        → n * per_chunk bs < req.arg1 + per_chunk bs
        → n ≤ 2 ^ 16
        → (Option.map (λ r. r.1.sys.effects) (read_chunks req 0 n s)
            ≡ some (replies bs req (disk_of s.sys.world) codes 0 n s.sys.effects))
          × (joined bs req (disk_of s.sys.world) 0 n
              ≡ sectors (disk_of s.sys.world) req.arg0 req.arg1)
    read_chunks_lem req n s v total on_drive enough needed short = (
      read_chunks-replies req 0 n s v total on_drive (omega (arith, short))
          (λ k below. index_inside bs req n needed k (omega (arith, below))),
      joined-sectors bs req (disk_of s.sys.world) 0 n (omega (arith, enough))
          ∙ same_sectors (disk_of s.sys.world) (omega arith) (omega arith),
    )

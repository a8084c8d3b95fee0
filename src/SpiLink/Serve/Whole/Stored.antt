-- ===== src/SpiLink/Serve/Whole/Stored.antt =====
-- A whole WRITE of src/spi_link/transport.rs: the master sends the chunks of a request one after
-- the other.
use mathlib.Core.Option
use bindkey_esp.Base.{
  ℕ, zero, suc, ◌+◌, ◌*◌, ◌%◌, ◌^◌, ◌<◌, ◌≤◌, ◌≡◌, refl, sym, ap, subst, ◌∙◌, arith, some, List,
  ◌++◌, EspCodes, ok, length,
}
use bindkey_esp.Base.Action.{Act, pure, ◌>>◌}
use bindkey_esp.Base.Words.{u32_le}
use bindkey_esp.MassStorage.Types.{MscApi, Effect}
use bindkey_esp.MassStorage.BlockDevice.Store.{Disk, stored, IsDrive}
use bindkey_esp.SpiLink.Protocol.{Header, max_payload}
use bindkey_esp.SpiLink.Crc.{spi_crc32}
use bindkey_esp.SpiLink.Chunk.{compute_chunk}
use bindkey_esp.SpiLink.Chunk.Tiling.{per_chunk, tile, compute_chunk-tile}
use bindkey_esp.SpiLink.Link.{LinkSt, Peer}
use bindkey_esp.SpiLink.Serve.{serve_write}
use bindkey_esp.SpiLink.Serve.Steps.{IsServing}
use bindkey_esp.SpiLink.Serve.Write.Request.{acknowledgement, serve_write-Written}
use bindkey_esp.SpiLink.Serve.Whole.Index.{at_index, index_inside}
use bindkey_esp.SpiLink.Serve.Whole.Payload.{
  piece, length-piece, stored_chunks, stored_chunks-stored,
}

-- The master sends `n` pieces of the payload from an index on, each with its checksum, in every
-- other transfer; the transfers in between bring the answers.
abbrev pub Sends : Peer → (bs : ℕ) → Header → List ℕ → (idx n transfers : ℕ) → Type 0
Sends peer bs req payload idx zero k = Unit
Sends peer bs req payload idx (suc n) k =
    ((peer.transfer k).result ≡ ok tt)
    × ((peer.transfer k).bytes
        ≡ piece bs req payload idx ++ u32_le (spi_crc32 (piece bs req payload idx)))
    × Sends peer bs req payload (suc idx) n (k + 1 + 1)

-- What the answers to `n` pieces from an index on add to what was done to the outside.
abbrev pub acknowledgements : EspCodes → (bs : ℕ) → Header → (idx n : ℕ) → List Effect → List Effect
acknowledgements codes bs req idx zero es = es
acknowledgements codes bs req idx (suc n) es =
    acknowledgements codes bs req (suc idx) n
      (acknowledgement codes (at_index req idx) (tile bs req.arg0 req.arg1 idx).len es)

module _ {W : Type 0} (api : MscApi W) (codes : EspCodes) (peer : Peer) where
  abbrev pub write_chunks : Header → (idx n : ℕ) → Act (LinkSt W) (Unit {0})
  write_chunks req idx zero = pure tt
  write_chunks req idx (suc n) = do
    serve_write api codes peer (at_index req idx)
    write_chunks req (suc idx) n

  -- What `n` chunks from an index on leave behind.
  pub record AllWritten (disk_of : W → Disk) (up : W → Type 0) (h bs bc : ℕ) (req : Header)
      (payload : List ℕ) (idx n : ℕ) (s : LinkSt W) : Type 0 where
    pub after : LinkSt W
    pub returns : write_chunks req idx n s ≡ some (ok tt, after)
    pub serving : IsServing up h bs bc after
    pub data_stored :
        disk_of after.sys.world ≡ stored_chunks bs req payload idx n (disk_of s.sys.world)
    pub sent : after.sys.effects ≡ acknowledgements codes bs req idx n s.sys.effects

  module _ (disk_of : W → Disk) (up : W → Type 0) (h bs bc : ℕ)
      (drive : IsDrive api h bs bc disk_of up) (fits : bc < 2 ^ 32) (pos : 0 < bs)
      (le : bs ≤ max_payload) (divides : max_payload % bs ≡ 0) where
    write_chunks-AllWritten :
        (req : Header) (payload : List ℕ) (idx n : ℕ) (s : LinkSt W)
        → IsServing up h bs bc s
        → req.arg1 * bs < 2 ^ 32
        → req.arg0 + req.arg1 ≤ bc
        → length payload ≡ req.arg1 * bs
        → idx + n ≤ 2 ^ 16
        → ((k : ℕ) → k < idx + n → k * per_chunk bs < req.arg1)
        → Sends peer bs req payload idx n s.transfers
        → AllWritten disk_of up h bs bc req payload idx n s
    write_chunks-AllWritten req payload idx zero s v total on_drive sized short inside sends =
        record { after = s; returns = refl; serving = v; data_stored = refl; sent = refl }
    write_chunks-AllWritten req payload idx (suc n) s v total on_drive sized short inside sends =
        let index : idx % 2 ^ 16 ≡ idx = omega (arith, short) in
        let one =
          serve_write-Written api codes peer disk_of up h bs bc drive fits (at_index req idx) s
            (tile bs req.arg0 req.arg1 idx) (piece bs req payload idx) v
            (ap (λ i. compute_chunk bs bc req.arg0 req.arg1 i) index
              ∙ compute_chunk-tile bs bc req.arg0 req.arg1 idx pos le divides total
                  (inside idx (omega arith)) on_drive fits)
            (length-piece bs req payload idx sized (inside idx (omega arith))) sends.0 sends.1 in
        let rest =
          write_chunks-AllWritten req payload (suc idx) n one.after one.serving total on_drive sized
            (omega (arith, short)) (λ k below. inside k (omega (arith, below)))
            (subst (Sends peer bs req payload (suc idx) n) (sym one.two_transfers) sends.2) in
        record {
          after = rest.after;
          returns = rw (one.returns) (rest.returns);
          serving = rest.serving;
          data_stored =
              rest.data_stored ∙ ap (stored_chunks bs req payload (suc idx) n) one.data_stored;
          sent = rest.sent ∙ ap (acknowledgements codes bs req (suc idx) n) one.sent;
        }

    -- A whole WRITE stores the master's payload in the sectors that it asked for, and changes no
    -- other sector: with the driver there, buffers of their sizes, an open device that is up and
    -- serves every command on sectors in its reach, a block size that divides a full payload and a
    -- drive of less than 2 ^ 32 blocks, a request of less than 2 ^ 32 bytes for sectors on the
    -- drive, a payload of exactly their bytes, and a master that sends its pieces in their order,
    -- each with its checksum, as many as the request needs and at most 2 ^ 16. Each piece is
    -- acknowledged once with the number of its bytes, and nothing else happens to the outside.
    pub write_chunks_lem :
        (req : Header) (payload : List ℕ) (n : ℕ) (s : LinkSt W)
        → IsServing up h bs bc s
        → req.arg1 * bs < 2 ^ 32
        → req.arg0 + req.arg1 ≤ bc
        → length payload ≡ req.arg1 * bs
        → req.arg1 ≤ n * per_chunk bs
        → n * per_chunk bs < req.arg1 + per_chunk bs
        → n ≤ 2 ^ 16
        → Sends peer bs req payload 0 n s.transfers
        → Option.map {B = Disk × List Effect}
            (λ r. (disk_of r.1.sys.world, r.1.sys.effects))
            (write_chunks req 0 n s)
          ≡ some (
            stored bs req.arg0 req.arg1 payload (disk_of s.sys.world),
            acknowledgements codes bs req 0 n s.sys.effects,
          )
    write_chunks_lem req payload n s v total on_drive sized enough needed short sends =
        let all =
          write_chunks-AllWritten req payload 0 n s v total on_drive sized (omega (arith, short))
            (λ k below. index_inside bs req n needed k (omega (arith, below))) sends in
        ap (Option.map {B = Disk × List Effect} (λ r. (disk_of r.1.sys.world, r.1.sys.effects)))
          all.returns
        ∙ ap (λ d. some (d, all.after.sys.effects))
            (all.data_stored ∙ stored_chunks-stored bs req payload n (disk_of s.sys.world) enough)
        ∙ ap (λ es. some (stored bs req.arg0 req.arg1 payload (disk_of s.sys.world), es)) all.sent

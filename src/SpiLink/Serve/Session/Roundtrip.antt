-- ===== src/SpiLink/Serve/Session/Roundtrip.antt =====
-- A whole WRITE and a whole READ of the same sectors over the wire, through the service loop of
-- src/spi_link/transport.rs.
use mathlib.Core.Option
use bindkey_esp.Base.{
  ℕ, ◌+◌, ◌-◌, ◌*◌, ◌%◌, ◌^◌, ◌<◌, ◌≤◌, ◌≡◌, ap, ◌∙◌, arith, some, List, ◌++◌, ok, Result, EspCodes,
  length, length-append,
}
use bindkey_esp.MassStorage.Types.{MscApi}
use bindkey_esp.MassStorage.BlockDevice.Store.{Disk, sectors, stored, IsDrive}
use bindkey_esp.MassStorage.BlockDevice.Store.ReadBack.{sectors-stored}
use bindkey_esp.SpiLink.Protocol.{Header, max_payload}
use bindkey_esp.SpiLink.Chunk.Tiling.{per_chunk}
use bindkey_esp.SpiLink.Link.{LinkSt, Peer}
use bindkey_esp.SpiLink.Serve.{serve_rounds}
use bindkey_esp.SpiLink.Serve.Steps.{IsServing}
use bindkey_esp.SpiLink.Serve.Ready.{IsLow}
use bindkey_esp.SpiLink.Serve.Whole.{joined, joined-sectors}
use bindkey_esp.SpiLink.Serve.Whole.Index.{index_inside}
use bindkey_esp.SpiLink.Serve.Whole.Payload.{stored_chunks-stored}
use bindkey_esp.SpiLink.Serve.Session.View.{View, view, offered}
use bindkey_esp.SpiLink.Serve.Session.Probe.{IsAwake}
use bindkey_esp.SpiLink.Serve.Session.Asks.{respond_all}
use bindkey_esp.SpiLink.Serve.Session.Rounds.{serve_rounds_lem}
use bindkey_esp.SpiLink.Serve.Session.Upload.{
  upload, download, Uploads, Downloads, upload_frames, download_frames, length-upload,
  length-download, respond_all-append, respond_all-upload, respond_all-download, upload-AskedAll,
  download-AskedAll,
}

-- A READ header for the sectors of a WRITE header.
pub record SameSectors (wr rd : Header) : Type 0 where
  pub start : rd.arg0 ≡ wr.arg0
  pub count : rd.arg1 ≡ wr.arg1

module _ (bs : ℕ) (wr rd : Header) (payload : List ℕ) (n : ℕ) (disk : Disk)
    (same : SameSectors wr rd) (sized : length payload ≡ wr.arg1 * bs)
    (enough : wr.arg1 ≤ n * per_chunk bs) where
  -- What the device makes of both.
  respond_all-transfer :
      (codes : EspCodes) (bc : ℕ) (frames : List (List ℕ))
      → respond_all codes bs bc (upload bs wr payload 0 n ++ download bs rd 0 n) (disk, frames) ≡ (
        stored bs wr.arg0 wr.arg1 payload disk,
        download_frames codes bs rd
            (stored bs wr.arg0 wr.arg1 payload disk)
            0
            n
            (upload_frames codes bs wr 0 n frames),
      )
  respond_all-transfer codes bc frames =
      respond_all-append codes bs bc (upload bs wr payload 0 n) (download bs rd 0 n) (disk, frames)
      ∙ ap (respond_all codes bs bc (download bs rd 0 n)) (
          respond_all-upload codes bs bc wr payload 0 n disk frames
          ∙ ap (λ d. (d, upload_frames codes bs wr 0 n frames))
              (stored_chunks-stored bs wr payload n disk enough))
      ∙ respond_all-download codes bs bc rd 0 n _ _

  joined-stored : joined bs rd (stored bs wr.arg0 wr.arg1 payload disk) 0 n ≡ payload
  joined-stored =
      let d = stored bs wr.arg0 wr.arg1 payload disk in
      let start : rd.arg0 + 0 * per_chunk bs ≡ wr.arg0 = omega (arith, same.start) in
      let count : rd.arg1 - 0 * per_chunk bs ≡ wr.arg1 = omega (arith, same.count) in
      joined-sectors bs rd d 0 n (omega (arith, same.count, enough))
      ∙ ap (λ a. sectors d a (rd.arg1 - 0 * per_chunk bs)) start
      ∙ ap (λ k. sectors d wr.arg0 k) count
      ∙ sectors-stored bs wr.arg0 wr.arg1 payload disk sized

module _ {W : Type 0} (api : MscApi W) (codes : EspCodes) (peer : Peer) (disk_of : W → Disk)
    (up : W → Type 0) (h bs bc : ℕ) (drive : IsDrive api h bs bc disk_of up) (fits : bc < 2 ^ 32)
    (pos : 0 < bs) (le : bs ≤ max_payload) (divides : max_payload % bs ≡ 0) where
  -- What the master writes is offered back to it, over the wire: with the driver there, buffers of
  -- their sizes, READY low, an open device that is up and serves every command on sectors in its
  -- reach, a block size that divides a full payload and a drive of less than 2 ^ 32 blocks, a
  -- WRITE of at least one sector and less than 2 ^ 32 bytes for sectors on the drive, a payload of
  -- exactly their bytes, and a master that sends the header and the piece, with its checksum, of
  -- each chunk of the WRITE, as many as it needs and at most 2 ^ 16, and then the header of each
  -- chunk of a READ of the same sectors, the loop returns from as many rounds, the device holds
  -- the payload in exactly those sectors, the frames that the firmware offers the master while
  -- READY is high are the answers to the pieces and then the data of the chunks, and that data put
  -- together is the payload.
  pub upload-download :
      (wr rd : Header) (payload : List ℕ) (n : ℕ) (s : LinkSt W)
      → SameSectors wr rd
      → IsServing up h bs bc s
      → IsLow s
      → 0 < wr.arg1
      → wr.arg1 * bs < 2 ^ 32
      → wr.arg0 + wr.arg1 ≤ bc
      → length payload ≡ wr.arg1 * bs
      → wr.arg1 ≤ n * per_chunk bs
      → n * per_chunk bs < wr.arg1 + per_chunk bs
      → n ≤ 2 ^ 16
      → Uploads peer bs wr payload 0 n s.transfers
      → Downloads peer rd 0 n (s.transfers + 3 * n)
      → (Option.map {B = Result (Unit {0}) × View}
            (λ r. (r.0, view disk_of r.1))
            (serve_rounds api codes peer (n + n) s)
          ≡ some (
            ok tt,
            (
              stored bs wr.arg0 wr.arg1 payload (disk_of s.sys.world),
              download_frames codes bs rd
                  (stored bs wr.arg0 wr.arg1 payload (disk_of s.sys.world))
                  0
                  n
                  (upload_frames codes bs wr 0 n (offered s.sys.effects)),
            ),
          ))
        × (joined bs rd (stored bs wr.arg0 wr.arg1 payload (disk_of s.sys.world)) 0 n ≡ payload)
  upload-download wr rd payload n s same v low some_sectors total on_drive sized enough needed short
        uploads downloads =
      let disk = disk_of s.sys.world in
      let asks = upload bs wr payload 0 n ++ download bs rd 0 n in
      let rounds : n + n ≡ length asks = omega (
        arith,
        length-append (upload bs wr payload 0 n) (download bs rd 0 n),
        length-upload bs wr payload 0 n,
        length-download bs rd 0 n,
      ) in
      let bytes : rd.arg1 * bs ≡ wr.arg1 * bs = ap (λ t. t * bs) same.count in
      let reads =
        download-AskedAll peer bs bc (IsAwake api h bs bc disk_of up) rd fits pos le divides
          (omega (arith, bytes, total)) (omega (arith, same.start, same.count, on_drive)) 0 n
          (s.transfers + 3 * n) (omega (arith, short))
          (λ k below.
            index_inside bs rd n (omega (arith, same.count, needed)) k (omega (arith, below)))
          downloads in
      let asked =
        upload-AskedAll peer bs bc (IsAwake api h bs bc disk_of up) wr fits pos le divides total
          on_drive payload (download bs rd 0 n) 0 n s.transfers sized (omega (arith, short))
          (λ k below. index_inside bs wr n needed k (omega (arith, below))) uploads reads in
      (
        ap
              (λ k.
                Option.map {B = Result (Unit {0}) × View} (λ r. (r.0, view disk_of r.1))
                  (serve_rounds api codes peer k s))
              rounds
            ∙ serve_rounds_lem api codes peer disk_of up h bs bc drive fits pos
                (omega (arith, some_sectors, on_drive)) asks s v low asked
            ∙ ap (λ x. some (ok tt, x))
                (respond_all-transfer bs wr rd payload n disk same sized enough codes bc
                  (offered s.sys.effects)),
        joined-stored bs wr rd payload n disk same sized enough,
      )

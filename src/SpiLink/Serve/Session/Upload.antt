-- ===== src/SpiLink/Serve/Session/Upload.antt =====
-- A whole WRITE and a whole READ as sessions with the service loop of src/spi_link/transport.rs.
use bindkey_esp.Base.{
  ℕ, zero, suc, ◌+◌, ◌*◌, ◌%◌, ◌^◌, ◌<◌, ◌≤◌, ◌≡◌, refl, ap, subst, ◌∙◌, arith, some, List, [], ◌∷◌,
  ◌++◌, length, ok, EspCodes,
}
use bindkey_esp.Base.Words.{u32_le}
use bindkey_esp.MassStorage.BlockDevice.Store.{Disk}
use bindkey_esp.SpiLink.Protocol.{Header, read, write, max_payload}
use bindkey_esp.SpiLink.Crc.{spi_crc32}
use bindkey_esp.SpiLink.Chunk.{compute_chunk}
use bindkey_esp.SpiLink.Chunk.Tiling.{per_chunk, tile, compute_chunk-tile}
use bindkey_esp.SpiLink.Link.{Peer}
use bindkey_esp.SpiLink.Serve.Whole.{chunk_data}
use bindkey_esp.SpiLink.Serve.Whole.Index.{at_index}
use bindkey_esp.SpiLink.Serve.Whole.Payload.{piece, length-piece, stored_chunks}
use bindkey_esp.SpiLink.Serve.Session.Header.{Requests}
use bindkey_esp.SpiLink.Serve.Session.View.{View, data_frame, payload_frame, count_frame}
use bindkey_esp.SpiLink.Serve.Session.Asks.{Ask, ask_read, ask_write, respond_all, AskedAll, Brings}

-- The pieces of a payload, written one after the other.
abbrev pub upload : (bs : ℕ) → Header → List ℕ → (idx n : ℕ) → List Ask
upload bs req payload idx zero = []
upload bs req payload idx (suc n) =
    ask_write (at_index req idx) (tile bs req.arg0 req.arg1 idx) (piece bs req payload idx)
    ∷ upload bs req payload (suc idx) n

-- The chunks of a request, read one after the other.
abbrev pub download : (bs : ℕ) → Header → (idx n : ℕ) → List Ask
download bs req idx zero = []
download bs req idx (suc n) =
    ask_read (at_index req idx) (tile bs req.arg0 req.arg1 idx) ∷ download bs req (suc idx) n

-- The master sends a header and a piece for each chunk from an index on; every third transfer
-- brings it the answer.
abbrev pub Uploads : Peer → (bs : ℕ) → Header → List ℕ → (idx n k : ℕ) → Type 0
Uploads peer bs req payload idx zero k = Unit
Uploads peer bs req payload idx (suc n) k =
    Requests peer (at_index req idx) (some write) k
    × Brings peer (piece bs req payload idx ++ u32_le (spi_crc32 (piece bs req payload idx)))
        (k + 1)
    × Uploads peer bs req payload (suc idx) n (k + 1 + 1 + 1)

-- The master sends a header for each chunk from an index on; every other transfer brings it the
-- data.
abbrev pub Downloads : Peer → Header → (idx n k : ℕ) → Type 0
Downloads peer req idx zero k = Unit
Downloads peer req idx (suc n) k =
    Requests peer (at_index req idx) (some read) k × Downloads peer req (suc idx) n (k + 1 + 1)

-- The frames of the answers, newest first.
abbrev pub upload_frames :
    EspCodes → (bs : ℕ) → Header → (idx n : ℕ) → List (List ℕ) → List (List ℕ)
upload_frames codes bs req idx zero frames = frames
upload_frames codes bs req idx (suc n) frames =
    let len = (tile bs req.arg0 req.arg1 idx).len in
    upload_frames codes bs req (suc idx) n
      (count_frame codes (at_index req idx) len ∷ payload_frame len ∷ frames)

abbrev pub download_frames :
    EspCodes → (bs : ℕ) → Header → Disk → (idx n : ℕ) → List (List ℕ) → List (List ℕ)
download_frames codes bs req disk idx zero frames = frames
download_frames codes bs req disk idx (suc n) frames =
    download_frames codes bs req disk (suc idx) n
      (data_frame codes (at_index req idx) (chunk_data bs req disk idx) ∷ frames)

pub length-upload :
    (bs : ℕ) (req : Header) (payload : List ℕ) (idx n : ℕ)
    → length (upload bs req payload idx n) ≡ n
length-upload bs req payload idx zero = refl
length-upload bs req payload idx (suc n) = ap suc (length-upload bs req payload (suc idx) n)

pub length-download : (bs : ℕ) (req : Header) (idx n : ℕ) → length (download bs req idx n) ≡ n
length-download bs req idx zero = refl
length-download bs req idx (suc n) = ap suc (length-download bs req (suc idx) n)

pub respond_all-append :
    (codes : EspCodes) (bs bc : ℕ) (first later : List Ask) (v : View)
    → respond_all codes bs bc (first ++ later) v
      ≡ respond_all codes bs bc later (respond_all codes bs bc first v)
respond_all-append codes bs bc [] later v = refl
respond_all-append codes bs bc (a ∷ first) later v = respond_all-append codes bs bc first later _

pub respond_all-upload :
    (codes : EspCodes) (bs bc : ℕ) (req : Header) (payload : List ℕ) (idx n : ℕ) (disk : Disk)
    (frames : List (List ℕ))
    → respond_all codes bs bc (upload bs req payload idx n) (disk, frames)
      ≡ (stored_chunks bs req payload idx n disk, upload_frames codes bs req idx n frames)
respond_all-upload codes bs bc req payload idx zero disk frames = refl
respond_all-upload codes bs bc req payload idx (suc n) disk frames =
    respond_all-upload codes bs bc req payload (suc idx) n _ _

pub respond_all-download :
    (codes : EspCodes) (bs bc : ℕ) (req : Header) (idx n : ℕ) (disk : Disk) (frames : List (List ℕ))
    → respond_all codes bs bc (download bs req idx n) (disk, frames)
      ≡ (disk, download_frames codes bs req disk idx n frames)
respond_all-download codes bs bc req idx zero disk frames = refl
respond_all-download codes bs bc req idx (suc n) disk frames =
    respond_all-download codes bs bc req (suc idx) n disk _

module _ (peer : Peer) (bs bc : ℕ) (awake : Type 0) (req : Header) (fits : bc < 2 ^ 32)
    (pos : 0 < bs) (le : bs ≤ max_payload) (divides : max_payload % bs ≡ 0)
    (total : req.arg1 * bs < 2 ^ 32) (on_drive : req.arg0 + req.arg1 ≤ bc) where
  accepted :
      (idx : ℕ)
      → idx < 2 ^ 16
      → idx * per_chunk bs < req.arg1
      → compute_chunk bs bc req.arg0 req.arg1 (at_index req idx).reserved
        ≡ ok (tile bs req.arg0 req.arg1 idx)
  accepted idx small inside =
      let index : idx % 2 ^ 16 ≡ idx = omega (arith, small) in
      ap (λ i. compute_chunk bs bc req.arg0 req.arg1 i) index
      ∙ compute_chunk-tile bs bc req.arg0 req.arg1 idx pos le divides total inside on_drive fits

  pub download-AskedAll :
      (idx n k : ℕ)
      → idx + n ≤ 2 ^ 16
      → ((i : ℕ) → i < idx + n → i * per_chunk bs < req.arg1)
      → Downloads peer req idx n k
      → AskedAll peer bs bc awake (download bs req idx n) k
  download-AskedAll idx zero k short inside asked = tt
  download-AskedAll idx (suc n) k short inside (now, later) = (
    (now, accepted idx (omega (arith, short)) (inside idx (omega arith))),
    download-AskedAll (suc idx) n (k + 1 + 1) (omega (arith, short))
        (λ i below. inside i (omega (arith, below))) later,
  )

  -- The requests of an upload, with others behind them.
  pub upload-AskedAll :
      (payload : List ℕ) (later : List Ask) (idx n k : ℕ)
      → length payload ≡ req.arg1 * bs
      → idx + n ≤ 2 ^ 16
      → ((i : ℕ) → i < idx + n → i * per_chunk bs < req.arg1)
      → Uploads peer bs req payload idx n k
      → AskedAll peer bs bc awake later (k + 3 * n)
      → AskedAll peer bs bc awake (upload bs req payload idx n ++ later) k
  upload-AskedAll payload later idx zero k sized short inside asked behind =
      let at : k + 3 * 0 ≡ k = omega arith in subst (AskedAll peer bs bc awake later) at behind
  upload-AskedAll payload later idx (suc n) k sized short inside (asked, brings, more) behind =
      let before = inside idx (omega arith) in
      let at : k + 3 * suc n ≡ k + 1 + 1 + 1 + 3 * n = omega arith in
      (
        (
          asked,
          accepted idx (omega (arith, short)) before,
          length-piece bs req payload idx sized before,
          brings,
        ),
        upload-AskedAll payload later (suc idx) n (k + 1 + 1 + 1) sized (omega (arith, short))
            (λ i below. inside i (omega (arith, below))) more
            (subst (AskedAll peer bs bc awake later) at behind),
      )

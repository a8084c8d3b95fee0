-- ===== src/MassStorage/BlockDevice/Store.antt =====
-- The block device of src/usb_mass_storage/block_device.rs as an array of sectors: an abstract disk
-- that a session of requests reads and writes.
pub mod ReadBack
use mathlib.Core.Option
use bindkey_esp.Base.{
  ℕ, zero, suc, ◌+◌, ◌-◌, ◌*◌, ◌^◌, ◌<◌, ◌≤◌, ◌≡◌, refl, sym, ap, ◌∙◌, arith, Bool, ◌&&◌, none,
  some, Option, List, [], ◌∷◌, ◌++◌, length, take, drop, ltb, leb, if◌then◌else◌, Result, ok, err,
  Status,
}
use bindkey_esp.Base.Action.{Act, pure, resume, from_result, ◌>>=◌, ◌>>◌}
use bindkey_esp.MassStorage.Types.{MscApi, Sys, rejoin}
use bindkey_esp.MassStorage.BlockDevice.{bd_read_blocks, bd_write_blocks}
use bindkey_esp.MassStorage.BlockDevice.Guards.{Servable, bd_blocks-Servable}

abbrev pub Disk : Type 0
Disk = ℕ → List ℕ

-- The bytes of `n` sectors from `lba` on.
abbrev pub sectors : Disk → (lba n : ℕ) → List ℕ
sectors disk lba zero = []
sectors disk lba (suc n) = disk lba ++ sectors disk (suc lba) n

-- The disk with `n` sectors of `bs` bytes from `lba` on replaced.
abbrev pub stored : (bs lba n : ℕ) → List ℕ → Disk → Disk
stored bs lba n payload disk a =
    if leb lba a && ltb a (lba + n) then take bs (drop ((a - lba) * bs) payload) else disk a

-- Sectors of a drive of `bc` blocks of `bs` bytes that one command can name.
pub record InReach (bs bc lba n : ℕ) : Type 0 where
  pub some_blocks : 0 < n
  pub on_drive : lba + n ≤ bc
  pub few : n < 2 ^ 16
  pub addressable : n * bs < 2 ^ 32

-- A device that serves every command on sectors in its reach while it is `up`, and stays up:
-- `disk_of` is what it holds. Nothing is said of a world in which it is not up, as one in which it
-- is not installed.
pub record IsDrive {W : Type 0} (api : MscApi W) (h bs bc : ℕ) (disk_of : W → Disk)
    (up : W → Type 0) : Type 0 where
  pub after_read : (lba n : ℕ) → W → W
  pub after_write : (lba n : ℕ) → List ℕ → W → W
  pub reads :
      (buffer : List ℕ) (lba n : ℕ) (w : W)
      → up w
      → InReach bs bc lba n
      → length buffer ≡ n * bs
      → api.read10 h buffer lba n bs w
        ≡ some (ok (ok tt, sectors (disk_of w) lba n), after_read lba n w)
  pub writes :
      (payload : List ℕ) (lba n : ℕ) (w : W)
      → up w
      → InReach bs bc lba n
      → length payload ≡ n * bs
      → api.write10 h payload lba n bs w ≡ some (ok (ok tt), after_write lba n payload w)
  pub read_keeps :
      (lba n : ℕ) (w : W) → up w → InReach bs bc lba n → disk_of (after_read lba n w) ≡ disk_of w
  pub write_stores :
      (payload : List ℕ) (lba n : ℕ) (w : W)
      → up w
      → InReach bs bc lba n
      → length payload ≡ n * bs
      → disk_of (after_write lba n payload w) ≡ stored bs lba n payload (disk_of w)
  pub up_after_read : (lba n : ℕ) (w : W) → up w → InReach bs bc lba n → up (after_read lba n w)
  pub up_after_write :
      (payload : List ℕ) (lba n : ℕ) (w : W)
      → up w
      → InReach bs bc lba n
      → length payload ≡ n * bs
      → up (after_write lba n payload w)

pub data Request : Type 0 where
  read_request : (lba n : ℕ) (buffer : List ℕ) → Request
  write_request : (lba n : ℕ) (payload : List ℕ) → Request

-- What the requests answer on the abstract disk.
abbrev pub answers : ℕ → List Request → Disk → List (List ℕ)
answers bs [] disk = []
answers bs (read_request lba n buffer ∷ rest) disk = sectors disk lba n ∷ answers bs rest disk
answers bs (write_request lba n payload ∷ rest) disk =
    [] ∷ answers bs rest (stored bs lba n payload disk)

module _ {W : Type 0} (api : MscApi W) where
  abbrev pub serve_request : Request → Act (Sys W) (List ℕ)
  serve_request (read_request lba n buffer) = do
    (status, out) ← bd_read_blocks api lba n buffer
    from_result status
    pure out
  serve_request (write_request lba n payload) = do bd_write_blocks api lba n payload; pure []

  abbrev pub session : List Request → Act (Sys W) (List (List ℕ))
  session [] = pure []
  session (r ∷ rest) = do first ← serve_request r; later ← session rest; pure (first ∷ later)

-- Every request can be served by the drive as the driver knows it, and a command can name its
-- sectors.
abbrev pub AllServable : {W : Type 0} → Sys W → ℕ → List Request → Type 0
AllServable s h [] = Unit
AllServable s h (read_request lba n buffer ∷ rest) =
    Servable s h lba n (length buffer) × (n < 2 ^ 16) × AllServable s h rest
AllServable s h (write_request lba n payload ∷ rest) =
    Servable s h lba n (length payload) × (n < 2 ^ 16) × AllServable s h rest

Servable-world :
    {W : Type 0}
    → (s : Sys W) (w : W) (h : ℕ) {lba n bytes : ℕ} → Servable s h lba n bytes
    → Servable (record s { world = w }) h lba n bytes
Servable-world s w h v = record {
  open_device = v.open_device;
  some_blocks = v.some_blocks;
  size_known = v.size_known;
  on_drive = v.on_drive;
  count_fits = v.count_fits;
  exact = v.exact;
  addressable = v.addressable;
}

AllServable-world :
    {W : Type 0}
    → (s : Sys W) (w : W) (h : ℕ) (rs : List Request) → AllServable s h rs
    → AllServable (record s { world = w }) h rs
AllServable-world s w h [] v = tt
AllServable-world s w h (read_request lba n buffer ∷ rest) v =
    (Servable-world s w h v.0, v.1, AllServable-world s w h rest v.2)
AllServable-world s w h (write_request lba n payload ∷ rest) v =
    (Servable-world s w h v.0, v.1, AllServable-world s w h rest v.2)

abbrev returned :
    {W : Type 0} → Option (Result (List (List ℕ)) × Sys W) → Option (Result (List (List ℕ)))
returned o = Option.map (λ r. r.0) o

returned-first :
    {W : Type 0}
    → (m : Option (Result (List (List ℕ)) × Sys W)) (first : List ℕ) (later : List (List ℕ))
    → returned m ≡ some (ok later)
    → returned (resume m (λ l. pure (first ∷ l))) ≡ some (ok (first ∷ later))
returned-first none first later e = ground (arith, e)
returned-first (some (err x, s)) first later e = ground (arith, e)
returned-first (some (ok l, s)) first later e = ap (λ o. with_first o) e
  where
    with_first : Option (Result (List (List ℕ))) → Option (Result (List (List ℕ)))
    with_first none = none
    with_first (some (err x)) = some (err x)
    with_first (some (ok l)) = some (ok (first ∷ l))

module _ {W : Type 0} (api : MscApi W) (h : ℕ) (disk_of : W → Disk) (up : W → Type 0) where
  in_reach :
      {s : Sys W} {lba n bytes : ℕ}
      → Servable s h lba n bytes
      → n < 2 ^ 16
      → InReach s.usb.block_size s.usb.block_count lba n
  in_reach v few = record {
    some_blocks = v.some_blocks;
    on_drive = v.on_drive;
    few = few;
    addressable = v.addressable;
  }

  -- On an open device that is up and serves every command on sectors in its reach, any sequence of
  -- reads and writes that the drive can serve, each of less than 2 ^ 16 sectors, succeeds, and
  -- each read answers with the bytes that an array of sectors gives that has taken the writes
  -- before it, in their order.
  pub session-answers :
      (s : Sys W) (rs : List Request)
      → IsDrive api h s.usb.block_size s.usb.block_count disk_of up
      → up s.world
      → AllServable s h rs
      → Option.map (λ r. r.0) (session api rs s)
        ≡ some (ok (answers s.usb.block_size rs (disk_of s.world)))
  session-answers s [] drive alive v = refl
  session-answers s (read_request lba n buffer ∷ rest) drive alive v =
      let near = in_reach v.0 v.1 in
      let after = drive.after_read lba n s.world in
      let one =
        (bd_blocks-Servable api s buffer v.0).1
        ∙ ap (λ o. rejoin s o) (drive.reads buffer lba n s.world alive near v.0.exact) in
      let rest_answers =
        session-answers (record s { world = after }) rest drive
          (drive.up_after_read lba n s.world alive near) (AllServable-world s after h rest v.2) in
      let same =
        ap (λ disk. some (ok (answers s.usb.block_size rest disk)))
          (drive.read_keeps lba n s.world alive near) in
      rw one (returned-first _ _ _ (rest_answers ∙ same))
  session-answers s (write_request lba n payload ∷ rest) drive alive v =
      let near = in_reach v.0 v.1 in
      let after = drive.after_write lba n payload s.world in
      let one =
        (bd_blocks-Servable api s payload v.0).0
        ∙ ap (λ o. resume (rejoin s o) from_result)
            (drive.writes payload lba n s.world alive near v.0.exact) in
      let rest_answers =
        session-answers (record s { world = after }) rest drive
          (drive.up_after_write payload lba n s.world alive near v.0.exact)
          (AllServable-world s after h rest v.2) in
      let same =
        ap (λ disk. some (ok (answers s.usb.block_size rest disk)))
          (drive.write_stores payload lba n s.world alive near v.0.exact) in
      rw one (returned-first _ _ _ (rest_answers ∙ same))

-- ===== src/SpiLink/Serve/Session/View.antt =====
-- What comes of a request that the service loop of src/spi_link/transport.rs serves: the frames
-- that the firmware offers the master while READY is high, and the data of the drive.
use bindkey_esp.Base.{
  ℕ, ◌+◌, ◌≡◌, ◌∙◌, some, Option, List, [], ◌∷◌, ◌++◌, ◌==◌, if◌then◌else◌, Result, Status, ok,
  EspCodes, length, take, replicate,
}
use bindkey_esp.Base.Words.{u32_le}
use bindkey_esp.MassStorage.Types.{Effect, gpio_reset, gpio_output, gpio_level, spi_transfer}
use bindkey_esp.MassStorage.BlockDevice.Store.{Disk}
use bindkey_esp.SpiLink.Protocol.{Header, header_bytes, crc_len}
use bindkey_esp.SpiLink.Crc.{spi_crc32}
use bindkey_esp.SpiLink.Link.{rx_len, LinkSt, status_word, response_header}
use bindkey_esp.SpiLink.Serve.Steps.{IsServing}
use bindkey_esp.SpiLink.Serve.Ready.{ready_level, IsLow}

-- The frames that were given to the SPI slave for a transfer while READY was high, newest first;
-- the transfer may have failed.
abbrev pub offered : List Effect → List (List ℕ)
offered [] = []
offered (gpio_reset pin ∷ es) = offered es
offered (gpio_output pin ∷ es) = offered es
offered (gpio_level pin level ∷ es) = offered es
offered (spi_transfer n sent ∷ es) =
    let before = offered es in if ready_level es == 1 then sent ∷ before else before

-- The data of the drive, and the frames.
abbrev pub View : Type 0
View = Disk × List (List ℕ)

abbrev pub view : {W : Type 0} → (W → Disk) → LinkSt W → View
view disk_of s = (disk_of s.sys.world, offered s.sys.effects)

-- A request that is done, after which the link and the driver are as before, READY is low, and the
-- master has the view that is given.
pub record Done {W : Type 0} (disk_of : W → Disk) (up : W → Type 0) (h bs bc : ℕ) (v : View)
    (transfers : ℕ) (o : Option (Result (Unit {0}) × LinkSt W)) : Type 0 where
  pub after : LinkSt W
  pub returns : o ≡ some (ok tt, after)
  pub serving : IsServing up h bs bc after
  pub low : IsLow after
  pub seen : view disk_of after ≡ v
  pub clocked : after.transfers ≡ transfers

-- The same request, seen as another action with another view.
pub Done-same :
    {W : Type 0} {disk_of : W → Disk} {up : W → Type 0} {h bs bc : ℕ} {v v' : View} {k : ℕ}
    {o o' : Option (Result (Unit {0}) × LinkSt W)}
    → o' ≡ o
    → v ≡ v'
    → Done disk_of up h bs bc v k o
    → Done disk_of up h bs bc v' k o'
Done-same e seen d = record {
  after = d.after;
  returns = e ∙ d.returns;
  serving = d.serving;
  low = d.low;
  seen = d.seen ∙ seen;
  clocked = d.clocked;
}

-- The frame of an answer without data.
abbrev pub status_frame : EspCodes → Header → Status → List ℕ
status_frame codes req status = header_bytes (response_header req (status_word codes status) 0)

-- The frame of a READ.
abbrev pub data_frame : EspCodes → Header → List ℕ → List ℕ
data_frame codes req bytes =
    (header_bytes (response_header req codes.esp_ok (length bytes)) ++ bytes)
    ++ u32_le (spi_crc32 bytes)

-- The frames of a WRITE: what is shifted out while the payload comes in, and the acknowledgement.
abbrev pub payload_frame : (len : ℕ) → List ℕ
payload_frame len = take (len + crc_len) (replicate rx_len 0)

abbrev pub count_frame : EspCodes → Header → (len : ℕ) → List ℕ
count_frame codes req len = header_bytes (response_header req codes.esp_ok len)

-- ===== src/SpiLink/Serve/Filter.antt =====
-- Frames that the service loop of src/spi_link/transport.rs does not dispatch.
use mathlib.Core.Option
use bindkey_esp.Base.{
  ◌+◌, ◌≡◌, ◌&&◌, arith, refl, inl, inr, true, false, Bool-cases, none, some, ok, err, EspCodes,
  invalid_arg, overwrite, take,
}
use bindkey_esp.MassStorage.Types.{MscApi, spi_transfer}
use bindkey_esp.SpiLink.Protocol.{is_valid, cmd_enum, read_header}
use bindkey_esp.SpiLink.Link.{LinkSt, Peer, hdr_len, succeeded, spi_slave_xfer, add_effect}
use bindkey_esp.SpiLink.Serve.{serve_one, dispatch, answer}

-- The state once a header has been clocked in.
abbrev pub with_header : {W : Type 0} → Peer → LinkSt W → LinkSt W
with_header peer s = add_effect (spi_transfer hdr_len (take hdr_len s.tx_dma)) (record s {
  rx_dma = overwrite 0 (take hdr_len (peer.transfer s.transfers).bytes) s.rx_dma;
  transfers = s.transfers + 1;
})

module _ {W : Type 0} (api : MscApi W) (codes : EspCodes) (peer : Peer) where
  -- A round whose header transfer fails, or brings a header that is not valid, does nothing but
  -- that transfer: READY is not raised, nothing is sent, and neither the drive nor the link is
  -- touched.
  pub serve_one_dropped :
      (s : LinkSt W)
      → (succeeded (peer.transfer s.transfers).result
          && is_valid (read_header (with_header peer s).rx_dma))
        ≡ false
      → serve_one api codes peer s ≡ some (ok tt, with_header peer s)
  unfolding serve_one spi_slave_xfer
  serve_one_dropped s h = elim (Bool-cases (succeeded (peer.transfer s.transfers).result)) [
    | inl arrived ↦
        let invalid : is_valid (read_header (with_header peer s).rx_dma) ≡ false =
          ground (arith, arrived, h) in
        rw (arrived, invalid) refl
    | inr failed ↦ rw failed refl
  ]

  -- A valid header with a command that does not exist is answered with the code for an invalid
  -- argument, if the transfer succeeded, and the drive and the driver's fields are as before.
  serve_one_unknown :
      (s : LinkSt W)
      → succeeded (peer.transfer s.transfers).result ≡ true
      → is_valid (read_header (with_header peer s).rx_dma) ≡ true
      → cmd_enum (read_header (with_header peer s).rx_dma) ≡ none
      → (serve_one api codes peer s
          ≡ answer api codes peer
              (read_header (with_header peer s).rx_dma)
              (err invalid_arg)
              (with_header peer s))
        × (Option.map (λ r. r.1.sys.world) (serve_one api codes peer s) ≡ some s.sys.world)
        × (Option.map (λ r. r.1.sys.usb) (serve_one api codes peer s) ≡ some s.sys.usb)
  unfolding serve_one dispatch answer spi_slave_xfer
  serve_one_unknown s arrived valid unknown = (
    rw (arrived, valid, unknown) refl,
    rw (arrived, valid, unknown) refl,
    rw (arrived, valid, unknown) refl,
  )

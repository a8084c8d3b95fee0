-- ===== src/SpiLink/Serve/Session/Header.antt =====
-- A round of the service loop of src/spi_link/transport.rs that brings a request's header.
use bindkey_esp.Base.{
  ℕ, ◌≡◌, refl, sym, ap, ◌∙◌, arith, true, not, if◌then◌else◌, Option, ok, EspCodes, length, take,
  drop, overwrite, length-overwrite, overwrite-front, take-length,
}
use bindkey_esp.Base.Action.{pure}
use bindkey_esp.MassStorage.Types.{MscApi}
use bindkey_esp.SpiLink.Protocol.{Cmd, Header, header_bytes, read_header, is_valid, cmd_enum}
use bindkey_esp.SpiLink.Protocol.Laws.{InRange, read_header-header_bytes}
use bindkey_esp.SpiLink.Link.{hdr_len, rx_len, LinkSt, Peer, spi_slave_xfer}
use bindkey_esp.SpiLink.Serve.{serve_one, dispatch}
use bindkey_esp.SpiLink.Serve.Steps.{IsServing, IsServing-move}
use bindkey_esp.SpiLink.Serve.Filter.{with_header}

-- The transfer of a number brings the header of a request.
pub record Requests (peer : Peer) (req : Header) (c : Option Cmd) (k : ℕ) : Type 0 where
  pub done : (peer.transfer k).result ≡ ok tt
  pub bytes : (peer.transfer k).bytes ≡ header_bytes req
  pub in_range : InRange req
  pub valid : is_valid req ≡ true
  pub command : cmd_enum req ≡ c

length-header_bytes : (h : Header) → length (header_bytes h) ≡ hdr_len
unfolding header_bytes
length-header_bytes h = refl

module _ {W : Type 0} (peer : Peer) where
  pub with_header-IsServing :
      {up : W → Type 0} {h bs bc : ℕ} {s : LinkSt W}
      → IsServing up h bs bc s
      → IsServing up h bs bc (with_header peer s)
  with_header-IsServing {s = s} v =
      IsServing-move v refl refl v.device_up v.sized (length-overwrite 0 _ s.rx_dma ∙ v.rx_sized)
        v.tx_sized

  -- The header is read as it was sent.
  pub read_header-with_header :
      (req : Header) (s : LinkSt W)
      → length s.rx_dma ≡ rx_len
      → (peer.transfer s.transfers).bytes ≡ header_bytes req
      → InRange req
      → read_header (with_header peer s).rx_dma ≡ req
  read_header-with_header req s sized bytes r =
      ap (λ b. read_header (overwrite 0 (take hdr_len b) s.rx_dma)) bytes
      ∙ ap (λ b. read_header (overwrite 0 b s.rx_dma))
          (take-length (header_bytes req) hdr_len (sym (length-header_bytes req)))
      ∙ ap read_header (
          overwrite-front (header_bytes req) s.rx_dma
            (omega (arith, sized, length-header_bytes req)))
      ∙ read_header-header_bytes req (drop (length (header_bytes req)) s.rx_dma) r

  pub serve_one-dispatch :
      (api : MscApi W) (codes : EspCodes) (req : Header) (c : Option Cmd) (s : LinkSt W)
      → length s.rx_dma ≡ rx_len
      → Requests peer req c s.transfers
      → serve_one api codes peer s ≡ dispatch api codes peer req c (with_header peer s)
  unfolding serve_one spi_slave_xfer
  serve_one-dispatch api codes req c s sized asked = rw (asked.done) (
      ap
        (λ q.
          (if not (is_valid q) then pure tt else dispatch api codes peer q (cmd_enum q))
            (with_header peer s))
        (read_header-with_header req s sized asked.bytes asked.in_range)
      ∙ rw (asked.valid, asked.command) refl)

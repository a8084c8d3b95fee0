-- ===== src/SpiLink/Serve/Session/Rounds.antt =====
-- A session with the service loop of src/spi_link/transport.rs, one round for each request.
use mathlib.Core.Option
use bindkey_esp.Base.{
  ℕ, ◌^◌, ◌<◌, ◌≡◌, refl, sym, ap, subst, ◌∙◌, Option, ◌+◌, ◌&&◌, false, none, some, List, [], ◌∷◌,
  ok, err, Result, invalid_arg, EspCodes, length,
}
use bindkey_esp.MassStorage.Types.{MscApi}
use bindkey_esp.MassStorage.BlockDevice.Store.{Disk, IsDrive}
use bindkey_esp.SpiLink.Protocol.{
  Header, read_header, is_valid, Cmd, get_status, get_capacity, read, write, flush,
}
use bindkey_esp.SpiLink.Link.{LinkSt, Peer, succeeded}
use bindkey_esp.SpiLink.Serve.{serve_one, serve_rounds, dispatch}
use bindkey_esp.SpiLink.Serve.Steps.{IsServing}
use bindkey_esp.SpiLink.Serve.Filter.{with_header, serve_one_dropped}
use bindkey_esp.SpiLink.Serve.Ready.{IsLow}
use bindkey_esp.SpiLink.Serve.Session.Header.{
  Requests, with_header-IsServing, read_header-with_header, serve_one-dispatch,
}
use bindkey_esp.SpiLink.Serve.Session.View.{Done-same, View, view, Done}
use bindkey_esp.SpiLink.Serve.Session.Answer.{answer-Done, serve_read-Done, serve_write-Done}
use bindkey_esp.SpiLink.Serve.Session.Probe.{IsAwake, serve_status-Done, serve_capacity-Done}
use bindkey_esp.SpiLink.Serve.Session.Refused.{
  serve_write_lost, serve_read_refused, serve_write_refused, serve_write_damaged,
}
use bindkey_esp.SpiLink.Serve.Session.Asks.{
  Ask, ask_read, ask_write, ask_damaged, ask_flush, ask_refused_read, ask_refused_write,
  ask_unknown, ask_status, ask_capacity, ask_lost, ask_invalid, ask_failed, respond, respond_all,
  next_transfer, Asked, AskedAll,
}

module _ {W : Type 0} (api : MscApi W) (codes : EspCodes) (peer : Peer) (disk_of : W → Disk)
    (up : W → Type 0) (h bs bc : ℕ) where
  -- The transfer of a header, with READY low, is not part of the view.
  view-with_header : (s : LinkSt W) → IsLow s → view disk_of (with_header peer s) ≡ view disk_of s
  view-with_header s low = rw low refl

  -- A round whose header is a request's does what the request's command does.
  by_command :
      (req : Header) (c : Option Cmd) (f : View → View) (k : ℕ) (s : LinkSt W)
      → IsServing up h bs bc s
      → IsLow s
      → Requests peer req c s.transfers
      → Done disk_of up h bs bc
          (f (view disk_of (with_header peer s)))
          k
          (dispatch api codes peer req c (with_header peer s))
      → Done disk_of up h bs bc (f (view disk_of s)) k (serve_one api codes peer s)
  by_command req c f k s v low asked d =
      Done-same (serve_one-dispatch peer api codes req c s v.rx_sized asked)
        (ap f (view-with_header s low)) d

  -- A round that drops what arrives.
  dropped :
      (s : LinkSt W)
      → IsServing up h bs bc s
      → IsLow s
      → (succeeded (peer.transfer s.transfers).result
          && is_valid (read_header (with_header peer s).rx_dma))
        ≡ false
      → Done disk_of up h bs bc (view disk_of s) (s.transfers + 1) (serve_one api codes peer s)
  dropped s v low nothing = record {
    after = with_header peer s;
    returns = serve_one_dropped api codes peer s nothing;
    serving = with_header-IsServing peer v;
    low = low;
    seen = view-with_header s low;
    clocked = refl;
  }

  module _ (drive : IsDrive api h bs bc disk_of up) (fits : bc < 2 ^ 32) (pos : 0 < bs)
      (some_blocks : 0 < bc) where
    serve_one-Done :
        (a : Ask) (s : LinkSt W)
        → IsServing up h bs bc s
        → IsLow s
        → Asked peer bs bc (IsAwake api h bs bc disk_of up) a s.transfers
        → Done disk_of up h bs bc
            (respond codes bs bc a (view disk_of s))
            (next_transfer a s.transfers)
            (serve_one api codes peer s)
    unfolding dispatch
    serve_one-Done (ask_read req c) s v low (asked, accepted) =
        by_command req (some read) (respond codes bs bc (ask_read req c)) _ s v low asked (
          serve_read-Done api codes peer disk_of up h bs bc drive fits req (with_header peer s) c
            (with_header-IsServing peer v) accepted)
    serve_one-Done (ask_write req c payload) s v low (asked, accepted, count, payload_sent) =
        by_command req (some write) (respond codes bs bc (ask_write req c payload)) _ s v low asked
          (serve_write-Done api codes peer disk_of up h bs bc drive fits req (with_header peer s) c
            payload (with_header-IsServing peer v) accepted count payload_sent.done
            payload_sent.brought)
    serve_one-Done (ask_damaged req c payload word) s v low
          (asked, accepted, count, payload_sent, word_fits, wrong) =
        by_command req (some write) (respond codes bs bc (ask_damaged req c payload word)) _ s v low
          asked
          (serve_write_damaged api codes peer disk_of up h bs bc pos some_blocks req
            (with_header peer s) c payload word (with_header-IsServing peer v) accepted count
            word_fits wrong payload_sent.done payload_sent.brought)
    serve_one-Done (ask_flush req) s v low asked =
        by_command req (some flush) (respond codes bs bc (ask_flush req)) _ s v low asked (
          answer-Done api codes peer disk_of up h bs bc req (ok tt) (with_header peer s)
            (with_header-IsServing peer v))
    serve_one-Done (ask_refused_read req e) s v low (asked, refused) =
        by_command req (some read) (respond codes bs bc (ask_refused_read req e)) _ s v low asked (
          serve_read_refused api codes peer disk_of up h bs bc pos some_blocks req
            (with_header peer s) e (with_header-IsServing peer v) refused)
    serve_one-Done (ask_refused_write req e) s v low (asked, refused) =
        by_command req (some write) (respond codes bs bc (ask_refused_write req e)) _ s v low asked
          (serve_write_refused api codes peer disk_of up h bs bc pos some_blocks req
            (with_header peer s) e (with_header-IsServing peer v) refused)
    serve_one-Done (ask_unknown req) s v low asked =
        by_command req none (respond codes bs bc (ask_unknown req)) _ s v low asked (
          answer-Done api codes peer disk_of up h bs bc req (err invalid_arg) (with_header peer s)
            (with_header-IsServing peer v))
    serve_one-Done (ask_status req) s v low (asked, awake) =
        by_command req (some get_status) (respond codes bs bc (ask_status req)) _ s v low asked (
          serve_status-Done api codes peer disk_of up h bs bc awake pos some_blocks req
            (with_header peer s) (with_header-IsServing peer v))
    serve_one-Done (ask_capacity req) s v low (asked, awake) =
        by_command req (some get_capacity) (respond codes bs bc (ask_capacity req)) _ s v low asked
          (serve_capacity-Done api codes peer disk_of up h bs bc awake pos some_blocks req
            (with_header peer s) (with_header-IsServing peer v))
    serve_one-Done (ask_lost req c) s v low (asked, accepted, lost) =
        by_command req (some write) (respond codes bs bc (ask_lost req c)) _ s v low asked (
          serve_write_lost api codes peer disk_of up h bs bc pos some_blocks req
            (with_header peer s) c lost.error (with_header-IsServing peer v) accepted lost.failed)
    serve_one-Done (ask_invalid req) s v low (brings, in_range, invalid) = dropped s v low (
        rw (brings.done) (
          ap is_valid (read_header-with_header peer req s v.rx_sized brings.brought in_range)
          ∙ invalid))
    serve_one-Done ask_failed s v low lost = dropped s v low (rw (lost.failed) refl)

    -- A session over the wire: with the driver there, buffers of their sizes, READY low, and an
    -- open device that is up and serves every command on sectors in its reach, of at least one
    -- block of at least one byte and of less than 2 ^ 32 blocks, where the master makes any
    -- requests one after the other (reads, writes, writes whose payload is damaged or does not
    -- arrive, flushes, reads and writes of chunks that are refused, commands that do not exist,
    -- headers that are not valid or do not arrive, and, where the device is ready and reports the
    -- sizes that the driver has, requests for the status and the capacity), as many rounds of the
    -- loop as there are requests return, the data of the device is what the requests make of it
    -- one after the other, and the frames that the firmware offers the master while READY is high
    -- are, in their order, those that the requests ask for.
    pub serve_rounds_lem :
        (asks : List Ask) (s : LinkSt W)
        → IsServing up h bs bc s
        → IsLow s
        → AskedAll peer bs bc (IsAwake api h bs bc disk_of up) asks s.transfers
        → Option.map {B = Result (Unit {0}) × View}
            (λ r. (r.0, view disk_of r.1))
            (serve_rounds api codes peer (length asks) s)
          ≡ some (ok tt, respond_all codes bs bc asks (view disk_of s))
    unfolding serve_rounds
    serve_rounds_lem [] s v low asked = refl
    serve_rounds_lem (a ∷ rest) s v low (now, later) =
        let one = serve_one-Done a s v low now in
        rw (one.returns) (
          serve_rounds_lem rest one.after one.serving one.low (
            subst (AskedAll peer bs bc (IsAwake api h bs bc disk_of up) rest) (sym one.clocked)
              later)
          ∙ ap (λ x. some (ok tt, respond_all codes bs bc rest x)) one.seen)

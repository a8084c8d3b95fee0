-- ===== src/SpiLink/Serve/Session/Answer.antt =====
-- The frames that answer a master in src/spi_link/transport.rs: a status, the data of a READ and
-- the acknowledgement of a WRITE.
use mathlib.Core.List.{append-nil}
use bindkey_esp.Base.{
  ℕ, ◌+◌, ◌-◌, ◌^◌, ◌<◌, ◌≤◌, ◌≡◌, refl, ap, subst, ◌∙◌, arith, List, [], ◌∷◌, ◌++◌, Status, ok,
  EspCodes, length, length-overwrite, length-take, take-overwrite_front,
}
use bindkey_esp.Base.Words.{u32_le}
use bindkey_esp.MassStorage.Types.{MscApi}
use bindkey_esp.MassStorage.BlockDevice.Store.{Disk, sectors, stored, IsDrive}
use bindkey_esp.SpiLink.Protocol.{Header, header_bytes}
use bindkey_esp.SpiLink.Crc.{spi_crc32}
use bindkey_esp.SpiLink.Chunk.{Chunk, compute_chunk}
use bindkey_esp.SpiLink.Link.{
  rx_len, hdr_len, LinkSt, Peer, status_word, response_header, arm_response, arm_response_with_arg1,
  send_response,
}
use bindkey_esp.SpiLink.Link.Staging.{staged, staged-arm_response_with_arg1}
use bindkey_esp.SpiLink.Link.Acknowledge.{arm_response_with_arg1-IsSized}
use bindkey_esp.SpiLink.Serve.{answer, serve_read, serve_write}
use bindkey_esp.SpiLink.Serve.Steps.{IsServing, IsServing-move, answered, send_response-answered}
use bindkey_esp.SpiLink.Serve.Ready.{ready_level}
use bindkey_esp.SpiLink.Serve.Read.Request.{serve_read-Served}
use bindkey_esp.SpiLink.Serve.Write.Request.{serve_write-Written}
use bindkey_esp.SpiLink.Serve.Session.View.{
  Done, offered, status_frame, data_frame, payload_frame, count_frame,
}

module _ {W : Type 0} (api : MscApi W) (codes : EspCodes) (peer : Peer) (disk_of : W → Disk)
    (up : W → Type 0) (h bs bc : ℕ) where
  send_response-Done :
      (t : LinkSt W)
      → IsServing up h bs bc t
      → Done disk_of up h bs bc
          (disk_of t.sys.world, staged t.link ∷ offered t.sys.effects)
          (t.transfers + 1)
          (send_response peer t)
  send_response-Done t v = record {
    after = answered peer t;
    returns = send_response-answered peer t;
    serving =
        IsServing-move v refl refl v.device_up v.sized (length-overwrite 0 _ t.rx_dma ∙ v.rx_sized)
          (length-overwrite 0 _ t.tx_dma ∙ v.tx_sized);
    low = refl;
    seen =
        ap (λ sent. (disk_of t.sys.world, sent ∷ offered t.sys.effects))
          (take-overwrite_front t.link.resp_len (staged t.link) t.tx_dma
            (omega (
              arith,
              length-take t.link.resp_len t.link.resp_buf,
              v.sized.resp,
              v.sized.staged_fits,
            ))
            (omega (arith, v.tx_sized, v.sized.staged_fits)));
    clocked = refl;
  }

  -- A staged response that is a header and a short payload.
  pub armed-Done :
      (req : Header) (word arg1 : ℕ) (payload : List ℕ) (s : LinkSt W)
      → IsServing up h bs bc s
      → length payload ≤ rx_len - hdr_len
      → Done disk_of up h bs bc
          (
            disk_of s.sys.world,
            (header_bytes (response_header req word arg1) ++ payload) ∷ offered s.sys.effects,
          )
          (s.transfers + 1)
          (send_response peer
            (record s { link = arm_response_with_arg1 req word arg1 payload s.link }))
  armed-Done req word arg1 payload s v fits =
      let t = record s { link = arm_response_with_arg1 req word arg1 payload s.link } in
      subst
        (λ bytes.
          Done disk_of up h bs bc (disk_of s.sys.world, bytes ∷ offered s.sys.effects)
            (s.transfers + 1) (send_response peer t))
        (staged-arm_response_with_arg1 req word arg1 payload v.sized fits)
        (send_response-Done t (
          IsServing-move v refl refl v.device_up
            (arm_response_with_arg1-IsSized req word arg1 payload v.sized) v.rx_sized v.tx_sized))

  -- A request that is answered with a status alone.
  pub answer-Done :
      (req : Header) (status : Status) (s : LinkSt W)
      → IsServing up h bs bc s
      → Done disk_of up h bs bc
          (disk_of s.sys.world, status_frame codes req status ∷ offered s.sys.effects)
          (s.transfers + 1)
          (answer api codes peer req status s)
  unfolding answer arm_response
  answer-Done req status s v =
      subst
        (λ bytes.
          Done disk_of up h bs bc (disk_of s.sys.world, bytes ∷ offered s.sys.effects)
            (s.transfers + 1) (answer api codes peer req status s))
        (append-nil _) (armed-Done req (status_word codes status) 0 [] s v (omega arith))

  module _ (drive : IsDrive api h bs bc disk_of up) (fits : bc < 2 ^ 32) where
    pub serve_read-Done :
        (req : Header) (s : LinkSt W) (c : Chunk)
        → IsServing up h bs bc s
        → compute_chunk bs bc req.arg0 req.arg1 req.reserved ≡ ok c
        → Done disk_of up h bs bc
            (
              disk_of s.sys.world,
              data_frame codes req (sectors (disk_of s.sys.world) c.lba c.nblocks)
                  ∷ offered s.sys.effects,
            )
            (s.transfers + 1)
            (serve_read api codes peer req s)
    serve_read-Done req s c v accepted =
        let one =
          serve_read-Served api codes peer disk_of up h bs bc drive fits req s c v accepted in
        record {
          after = one.after;
          returns = one.returns;
          serving = one.serving;
          low = ap ready_level one.sent;
          seen =
              ap (λ d. (d, offered one.after.sys.effects)) one.same_data
              ∙ ap (λ es. (disk_of s.sys.world, offered es)) one.sent;
          clocked = one.one_transfer;
        }

    pub serve_write-Done :
        (req : Header) (s : LinkSt W) (c : Chunk) (payload : List ℕ)
        → IsServing up h bs bc s
        → compute_chunk bs bc req.arg0 req.arg1 req.reserved ≡ ok c
        → length payload ≡ c.len
        → (peer.transfer s.transfers).result ≡ ok tt
        → (peer.transfer s.transfers).bytes ≡ payload ++ u32_le (spi_crc32 payload)
        → Done disk_of up h bs bc
            (
              stored bs c.lba c.nblocks payload (disk_of s.sys.world),
              count_frame codes req c.len ∷ payload_frame c.len ∷ offered s.sys.effects,
            )
            (s.transfers + 1 + 1)
            (serve_write api codes peer req s)
    serve_write-Done req s c payload v accepted count done bytes =
        let one =
          serve_write-Written api codes peer disk_of up h bs bc drive fits req s c payload v
            accepted count done bytes in
        record {
          after = one.after;
          returns = one.returns;
          serving = one.serving;
          low = ap ready_level one.sent;
          seen =
              ap (λ d. (d, offered one.after.sys.effects)) one.data_stored
              ∙ ap (λ es. (stored bs c.lba c.nblocks payload (disk_of s.sys.world), offered es))
                  one.sent;
          clocked = one.two_transfers;
        }

-- ===== src/SpiLink/Serve/Kept/Rounds.antt =====
-- Every operation of the service loop keeps a property of the link's state that is closed under its
-- parts (src/spi_link/transport.rs).
use bindkey_esp.Base.{
  ℕ, zero, suc, ◌+◌, ◌≡◌, refl, invalid_state, Bool-cases, inl, inr, not, take, invalid_crc,
  invalid_arg, Option, none, some, List, ◌==◌, Result, ok, err, EspErr, EspCodes, Status,
}
use bindkey_esp.Base.Action.{ignore, pure}
use bindkey_esp.MassStorage.Types.{MscApi}
use bindkey_esp.MassStorage.BlockDevice.{
  capacity_unknown, not_present, bd_status, bd_refresh_capacity, bd_read_blocks, bd_write_blocks,
}
use bindkey_esp.SpiLink.Protocol.{
  crc_len, Header, is_valid, read_header, cmd_enum, Cmd, get_status, get_capacity, read, write,
  flush,
}
use bindkey_esp.SpiLink.Chunk.{Chunk}
use bindkey_esp.SpiLink.Crc.{spi_crc32}
use bindkey_esp.Base.Words.{u32_at}
use bindkey_esp.SpiLink.Link.{
  hdr_len, LinkSt, Peer, send_response, spi_slave_xfer, timer, succeeded,
}
use bindkey_esp.SpiLink.Serve.Filter.{with_header}
use bindkey_esp.SpiLink.Serve.{
  on_usb, capacity_present, read_present, write_present, answer, serve_status, serve_capacity,
  ensure_capacity_known, chunk_of, serve_read_chunk, serve_read, receive_payload, refuse_write,
  store_payload, accept_payload, serve_write_chunk, serve_write, dispatch, serve_one, serve_rounds,
}
use bindkey_esp.SpiLink.Serve.Kept.{
  IsClosed, Kept, Kept-resume, Kept-outcome, Kept-branch, Kept-rejoin, Kept-some,
}

module _ {W : Type 0} (api : MscApi W) (codes : EspCodes) (peer : Peer) {P : LinkSt W → Type 0}
    (closed : IsClosed api P) where
  send_response-Kept : (s : LinkSt W) → P s → Kept P (send_response peer s)
  unfolding send_response Kept
  send_response-Kept s h =
      closed.unrelated _ _ refl (closed.pulsed s.link.resp_len (take s.link.resp_len _) s h)

  -- A response that is staged after something else.
  respond-Kept : (s t : LinkSt W) → P s → t.sys ≡ s.sys → Kept P (send_response peer t)
  respond-Kept s t h same = send_response-Kept t (closed.unrelated s t same h)

  answer-Kept :
      (req : Header) (r : Status) (s : LinkSt W) → P s → Kept P (answer api codes peer req r s)
  unfolding answer
  answer-Kept req r s h = respond-Kept s _ h refl

  serve_status-Kept :
      (req : Header) (s : LinkSt W) → P s → Kept P (serve_status api codes peer req s)
  unfolding serve_status
  serve_status-Kept req s h =
      Kept-resume P _ _
        (Kept-branch P s.sys.global_set (on_usb api codes peer (bd_status api)) (pure not_present) s
          (Kept-rejoin P api codes peer s (bd_status api s.sys) (closed.probed s h))
          (Kept-some P (ok not_present) s h))
        λ status s' h'. respond-Kept s' _ h' refl

  capacity_present-Kept :
      (req : Header) (s : LinkSt W) → P s → Kept P (capacity_present api codes peer req s)
  unfolding capacity_present
  capacity_present-Kept req s h =
      Kept-resume P _ _
        (Kept-outcome P _
          (Kept-rejoin P api codes peer s (bd_refresh_capacity api s.sys) (closed.refreshed s h)))
        λ sizes s' h'. respond-Kept s' _ h' refl

  serve_capacity-Kept :
      (req : Header) (s : LinkSt W) → P s → Kept P (serve_capacity api codes peer req s)
  unfolding serve_capacity
  serve_capacity-Kept req s h =
      Kept-branch P (not s.sys.global_set) (answer api codes peer req (err invalid_state))
        (capacity_present api codes peer req) s (answer-Kept req (err invalid_state) s h)
        (capacity_present-Kept req s h)

  pub ensure_capacity_known-Kept :
      (s : LinkSt W) → P s → Kept P (ensure_capacity_known api codes peer s)
  unfolding ensure_capacity_known
  ensure_capacity_known-Kept s h =
      Kept-branch P (not (capacity_unknown s.sys.usb)) (pure tt)
        (ignore (on_usb api codes peer (bd_refresh_capacity api))) s (Kept-some P (ok tt) s h)
        (Kept-resume P _ _
          (Kept-outcome P _
            (Kept-rejoin P api codes peer s (bd_refresh_capacity api s.sys) (closed.refreshed s h)))
          λ sizes s' h'. Kept-some P (ok tt) s' h')

  serve_read_chunk-Kept :
      (req : Header) (t0 : ℕ) (chunk : Result Chunk) (s : LinkSt W)
      → P s
      → Kept P (serve_read_chunk api codes peer req t0 chunk s)
  unfolding serve_read_chunk timer
  serve_read_chunk-Kept req t0 (err e) s h = answer-Kept req (err e) s h
  serve_read_chunk-Kept req t0 (ok c) s h =
      let s₁ : LinkSt W = record s { timer_reads = s.timer_reads + 1 } in
      Kept-resume P _ _
        (Kept-rejoin P api codes peer s₁
          (bd_read_blocks api c.lba c.nblocks (take c.len s.link.block_buf) s.sys)
          (closed.fetched c.lba c.nblocks _ s₁ (closed.unrelated s s₁ refl h)))
        λ reply s' h'. respond-Kept s' _ h' refl

  read_present-Kept :
      (req : Header) (t0 : ℕ) (s : LinkSt W) → P s → Kept P (read_present api codes peer req t0 s)
  unfolding read_present
  read_present-Kept req t0 s h =
      Kept-resume P (ensure_capacity_known api codes peer s) _ (ensure_capacity_known-Kept s h)
        λ _ s' h'. serve_read_chunk-Kept req t0 (chunk_of api codes peer req s'.sys) s' h'

  serve_read-Kept : (req : Header) (s : LinkSt W) → P s → Kept P (serve_read api codes peer req s)
  unfolding serve_read timer
  serve_read-Kept req s h =
      let s₁ : LinkSt W = record s { timer_reads = s.timer_reads + 1 } in
      let h₁ = closed.unrelated s s₁ refl h in
      Kept-branch P (not s.sys.global_set) (answer api codes peer req (err invalid_state))
        (read_present api codes peer req (peer.time_us s.timer_reads)) s₁
        (answer-Kept req (err invalid_state) s₁ h₁)
        (read_present-Kept req (peer.time_us s.timer_reads) s₁ h₁)

  receive_payload-Kept : (n : ℕ) (s : LinkSt W) → P s → Kept P (receive_payload api codes peer n s)
  unfolding receive_payload Kept
  receive_payload-Kept n s h = closed.unrelated _ _ refl (closed.pulsed n (take n _) s h)

  refuse_write-Kept :
      (req : Header) (e : EspErr) (s : LinkSt W)
      → P s
      → Kept P (refuse_write api codes peer req e s)
  unfolding refuse_write
  refuse_write-Kept req e s h =
      Kept-resume P _ _ (receive_payload-Kept _ s h) λ _ s' h'. answer-Kept req (err e) s' h'

  store_payload-Kept :
      (req : Header) (t0 : ℕ) (c : Chunk) (payload : List ℕ) (s : LinkSt W)
      → P s
      → Kept P (store_payload api codes peer req t0 c payload s)
  unfolding store_payload timer
  store_payload-Kept req t0 c payload s h =
      let s₁ : LinkSt W = record s { timer_reads = s.timer_reads + 1 } in
      Kept-resume P _ _
        (Kept-outcome P _ (
          Kept-rejoin P api codes peer s₁ (bd_write_blocks api c.lba c.nblocks payload s.sys)
            (closed.stored c.lba c.nblocks payload s₁ (closed.unrelated s s₁ refl h))))
        λ status s' h'. respond-Kept s' _ h' refl

  pub accept_payload-Kept :
      (req : Header) (t0 : ℕ) (c : Chunk) (s : LinkSt W)
      → P s
      → Kept P (accept_payload api codes peer req t0 c s)
  unfolding accept_payload
  accept_payload-Kept req t0 c s h =
      Kept-branch P (not (u32_at c.len s.rx_dma == spi_crc32 (take c.len s.rx_dma)))
        (answer api codes peer req (err invalid_crc))
        (store_payload api codes peer req t0 c (take c.len s.rx_dma)) s
        (answer-Kept req (err invalid_crc) s h)
        (store_payload-Kept req t0 c (take c.len s.rx_dma) s h)

  serve_write_chunk-Kept :
      (req : Header) (t0 : ℕ) (chunk : Result Chunk) (s : LinkSt W)
      → P s
      → Kept P (serve_write_chunk api codes peer req t0 chunk s)
  unfolding serve_write_chunk
  serve_write_chunk-Kept req t0 (err e) s h = refuse_write-Kept req e s h
  serve_write_chunk-Kept req t0 (ok c) s h =
      Kept-resume P _ _ (receive_payload-Kept (c.len + crc_len) s h) λ received s' h'.
        Kept-branch P (not received) (pure tt) (accept_payload api codes peer req t0 c) s'
          (Kept-some P (ok tt) s' h') (accept_payload-Kept req t0 c s' h')

  write_present-Kept :
      (req : Header) (t0 : ℕ) (s : LinkSt W) → P s → Kept P (write_present api codes peer req t0 s)
  unfolding write_present
  write_present-Kept req t0 s h =
      Kept-resume P (ensure_capacity_known api codes peer s) _ (ensure_capacity_known-Kept s h)
        λ _ s' h'. serve_write_chunk-Kept req t0 (chunk_of api codes peer req s'.sys) s' h'

  serve_write-Kept : (req : Header) (s : LinkSt W) → P s → Kept P (serve_write api codes peer req s)
  unfolding serve_write timer
  serve_write-Kept req s h =
      let s₁ : LinkSt W = record s { timer_reads = s.timer_reads + 1 } in
      let h₁ = closed.unrelated s s₁ refl h in
      Kept-branch P (not s.sys.global_set) (refuse_write api codes peer req invalid_state)
        (write_present api codes peer req (peer.time_us s.timer_reads)) s₁
        (refuse_write-Kept req invalid_state s₁ h₁)
        (write_present-Kept req (peer.time_us s.timer_reads) s₁ h₁)

  dispatch-Kept :
      (req : Header) (cmd : Option Cmd) (s : LinkSt W)
      → P s
      → Kept P (dispatch api codes peer req cmd s)
  unfolding dispatch
  dispatch-Kept req none s h = answer-Kept req (err invalid_arg) s h
  dispatch-Kept req (some get_status) s h = serve_status-Kept req s h
  dispatch-Kept req (some get_capacity) s h = serve_capacity-Kept req s h
  dispatch-Kept req (some read) s h = serve_read-Kept req s h
  dispatch-Kept req (some write) s h = serve_write-Kept req s h
  dispatch-Kept req (some flush) s h = answer-Kept req (ok tt) s h

  pub with_header-Kept : (s : LinkSt W) → P s → P (with_header peer s)
  with_header-Kept s h =
      closed.unrelated _ _ refl (closed.clocked hdr_len (take hdr_len s.tx_dma) s h)

  pub serve_one-Kept : (s : LinkSt W) → P s → Kept P (serve_one api codes peer s)
  unfolding serve_one spi_slave_xfer
  serve_one-Kept s h =
      let h₁ = with_header-Kept s h in
      elim (Bool-cases (succeeded (peer.transfer s.transfers).result)) [
        | inr failed ↦ rw failed (Kept-some P (ok tt) (with_header peer s) h₁)
        | inl arrived ↦ elim (Bool-cases (is_valid (read_header (with_header peer s).rx_dma))) [
          | inr invalid ↦ rw (arrived, invalid) (Kept-some P (ok tt) (with_header peer s) h₁)
          | inl valid ↦
              rw (arrived, valid)
                (dispatch-Kept (read_header (with_header peer s).rx_dma)
                  (cmd_enum (read_header (with_header peer s).rx_dma)) (with_header peer s) h₁)
        ]
      ]

  pub serve_rounds-Kept : (n : ℕ) (s : LinkSt W) → P s → Kept P (serve_rounds api codes peer n s)
  unfolding serve_rounds
  serve_rounds-Kept zero s h = Kept-some P (ok tt) s h
  serve_rounds-Kept (suc n) s h =
      Kept-resume P (serve_one api codes peer s) (λ _. serve_rounds api codes peer n)
        (serve_one-Kept s h) λ _ s' h'. serve_rounds-Kept n s' h'

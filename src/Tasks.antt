-- ===== src/Tasks.antt =====
-- The SPI task of src/spi_link/task.rs beside the polling loop of src/main.rs and the callbacks of
-- the component's background task: they share the driver behind `GLOBAL_MSC` without a lock. This
-- file has the part of a WRITE of src/spi_link/transport.rs that runs once the master sends the
-- payload, in the state that the other tasks have left meanwhile.
pub mod Arrival
pub mod Capacity
use bindkey_esp.Base.{
  ℕ, ◌+◌, ◌≡◌, Option, none, some, not, length, replicate, if◌then◌else◌, Result, ok, err, EspCodes,
  fail, invalid_arg, invalid_state,
}
use bindkey_esp.Base.Action.{Act, pure, throw, gets, modify, ◌>>=◌, ◌>>◌}
use bindkey_esp.MassStorage.Types.{MscEvent, Board, Sys}
use bindkey_esp.MassStorage.Driver.{msc_event_cb, poll}
use bindkey_esp.MassStorage.Driver.Coherence.{InByte}
use bindkey_esp.SpiLink.Protocol.{
  Cmd, get_status, get_capacity, read, write, flush, Header, is_valid, cmd_enum, read_header,
  crc_len,
}
use bindkey_esp.SpiLink.Chunk.{Chunk}
use bindkey_esp.SpiLink.Link.{hdr_len, LinkSt, Peer, timer, ready_high, ready_low, spi_slave_xfer}
use bindkey_esp.SpiLink.Serve.{serve_one, ensure_capacity_known, chunk_of, accept_payload}

module _ {W : Type 0} (b : Board W) (codes : EspCodes) (peer : Peer) where
  -- The rest of a round of a WRITE, from the wait for the payload on.
  unfoldable pub finish_write : Header → ℕ → Chunk → Act (LinkSt W) (Unit {0})
  unfolding spi_slave_xfer ready_low accept_payload
  finish_write req t0 c = do
    received ← spi_slave_xfer peer (c.len + crc_len)
    ready_low
    if not received then pure tt else accept_payload b.api codes peer req t0 c

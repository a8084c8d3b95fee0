-- ===== src/MassStorage/Component/Sectors.antt =====
-- From the sectors of a request to the command on the USB bus: src/spi_link/transport.rs
-- (`compute_chunk`), src/usb_mass_storage/block_device.rs and
-- src/usb_mass_storage/usb_host_msc/src/msc_scsi_bot.c together.
use native.Mathlib.Nat.{mul-le-mul_left}
use bindkey_esp.Base.{
  Option, err, Result, Status, ap, ◌∙◌, none, ℕ, ◌+◌, ◌*◌, ◌%◌, ◌^◌, ◌<◌, ◌≡◌, refl, arith, some,
  List, ◌++◌, length, ok,
}
use bindkey_esp.Base.Action.{Act, pure, resume, ◌>>=◌, from_result}
use bindkey_esp.MassStorage.Types.{Sys, call, rejoin}
use bindkey_esp.MassStorage.BlockDevice.{bd_read_blocks, bd_write_blocks}
use bindkey_esp.MassStorage.BlockDevice.Guards.{bd_blocks-Servable}
use bindkey_esp.MassStorage.Component.{Component, component_api, on_driver, rejoin_driver}
use bindkey_esp.Msc.Types.{UsbHost, St}
use bindkey_esp.Msc.Vfs.{Fat}
use bindkey_esp.Msc.Command.{
  Command, command, command_bytes, read10_block, write10_block, dir_in, dir_out,
}
use bindkey_esp.Msc.Command.Wire.{Decodes10, read10-Decodes10, write10-Decodes10}
use bindkey_esp.Msc.Bot.{Reply, bot_execute_command}
use bindkey_esp.Msc.Scsi.{
  execute, scsi_cmd_read10, scsi_cmd_write10, after_command, msc_host_reset_recovery,
}
use bindkey_esp.SpiLink.Chunk.{Chunk, compute_chunk}
use bindkey_esp.SpiLink.Serve.Steps.{chunk-Servable}
use bindkey_esp.SpiLink.Chunk.Bounds.{InBounds, compute_chunk-InBounds}

-- The tag of the next command.
abbrev pub tag_after : {W : Type 0} → St W → ℕ
tag_after m = (m.cbw_tag + 1) % 2 ^ 32

abbrev pub tagged : {W : Type 0} → St W → St W
tagged m = record m { cbw_tag = tag_after m }

-- The commands for a chunk.
abbrev pub read_command : Chunk → (tag : ℕ) → Command
read_command c tag = command dir_in tag c.len (read10_block c.lba c.nblocks)

abbrev pub write_command : Chunk → (tag : ℕ) → Command
write_command c tag = command dir_out tag c.len (write10_block c.lba c.nblocks)

module _ {W : Type 0} (U : UsbHost W) (depth : ℕ) where
  -- One exchange with the device, and the sense request of a failed one.
  abbrev pub read_exchange : ℕ → Chunk → List ℕ → Act (St W) Reply
  read_exchange h c payload m =
      (bot_execute_command U (msc_host_reset_recovery U depth) h (read_command c (tag_after m))
            (some payload) c.len
          >>= λ reply. after_command U (msc_host_reset_recovery U depth) h reply.0 >>= λ final.
              pure (final, reply.1))
        (tagged m)

  abbrev pub write_exchange : ℕ → Chunk → List ℕ → Act (St W) (Unit {0})
  write_exchange h c payload m =
      ((bot_execute_command U (msc_host_reset_recovery U depth) h (write_command c (tag_after m))
              (some payload) c.len
            >>= λ reply. after_command U (msc_host_reset_recovery U depth) h reply.0)
          >>= from_result)
        (tagged m)

  read10-exchange :
      (h size : ℕ) (c : Chunk) (payload : List ℕ) (m : St W)
      → c.nblocks * size % 2 ^ 32 ≡ c.len
      → scsi_cmd_read10 U (msc_host_reset_recovery U depth) h payload c.lba c.nblocks size m
        ≡ read_exchange h c payload m
  unfolding scsi_cmd_read10 execute
  read10-exchange h size c payload m e = rw e refl

  write10-exchange :
      (h size : ℕ) (c : Chunk) (payload : List ℕ) (m : St W)
      → c.nblocks * size % 2 ^ 32 ≡ c.len
      → (scsi_cmd_write10 U (msc_host_reset_recovery U depth) h payload c.lba c.nblocks size
            >>= from_result)
          m
        ≡ write_exchange h c payload m
  unfolding scsi_cmd_write10 execute
  write10-exchange h size c payload m e = rw e refl

-- A returned status that becomes the result of the call.
call-from_result :
    {W : Type 0}
    → (s : Sys (Component W)) (o : Option (Result Status × St W))
    → resume (rejoin s (rejoin_driver s.world o)) from_result
      ≡ rejoin s (rejoin_driver s.world (resume o from_result))
call-from_result s none = refl
call-from_result s (some (ok r, m)) = refl
call-from_result s (some (err e, m)) = refl

-- The bytes of a chunk, and the count that its command carries.
chunk_bytes : {bs bc : ℕ} {c : Chunk} → InBounds bs bc c → c.nblocks * bs % 2 ^ 32 ≡ c.len
chunk_bytes v = omega (arith, v.bytes, v.fits)

chunk_count : {bs bc : ℕ} {c : Chunk} → InBounds bs bc c → c.nblocks < 2 ^ 16
chunk_count {c} v = omega (arith, v.bytes, v.fits, mul-le-mul_left c.nblocks v.block_size_pos)

module _ {W : Type 0} (U : UsbHost W) (F : Fat W) (usb_host_install : Act W (Unit {0}))
    (depth ff_volumes : ℕ) where
  -- For an accepted chunk, an open device, a drive of less than 2 ^ 32 blocks and a buffer of the
  -- chunk's bytes, reading the chunk is one exchange of the Bulk-Only Transport with that device,
  -- and so is writing it; whatever bytes follow the struct, the command that is sent decodes, by
  -- the tables of the standards, to READ(10) and WRITE(10) of exactly the chunk's sectors and
  -- bytes.
  pub chunk_exchange :
      (s : Sys (Component W)) (h lba_start nblocks_total chunk_idx : ℕ) {c : Chunk}
      (payload rest : List ℕ)
      → compute_chunk s.usb.block_size s.usb.block_count lba_start nblocks_total chunk_idx ≡ ok c
      → s.usb.handle ≡ some h
      → s.usb.block_count < 2 ^ 32
      → length payload ≡ c.len
      → (bd_read_blocks
            (component_api U F usb_host_install depth ff_volumes)
            c.lba
            c.nblocks
            payload
            s
          ≡ call (on_driver (read_exchange U depth h c payload)) s)
        × Decodes10
            (command_bytes (read_command c (tag_after s.world.volumes.msc)) ++ rest)
            (tag_after s.world.volumes.msc)
            c.len
            dir_in
            0x28
            c.lba
            c.nblocks
        × (bd_write_blocks
              (component_api U F usb_host_install depth ff_volumes)
              c.lba
              c.nblocks
              payload
              s
            ≡ call (on_driver (write_exchange U depth h c payload)) s)
        × Decodes10
            (command_bytes (write_command c (tag_after s.world.volumes.msc)) ++ rest)
            (tag_after s.world.volumes.msc)
            c.len
            dir_out
            0x2A
            c.lba
            c.nblocks
  unfolding component_api
  chunk_exchange s h lba_start nblocks_total chunk_idx {c} payload rest e open_device fits same =
      let v =
        compute_chunk-InBounds s.usb.block_size s.usb.block_count lba_start nblocks_total chunk_idx
          e in
      let served =
        bd_blocks-Servable (component_api U F usb_host_install depth ff_volumes) s payload
          (chunk-Servable s h open_device fits v same) in
      let m = s.world.volumes.msc in
      let address : c.lba < 2 ^ 32 = omega (arith, v.no_wrap) in
      (
        served.1
            ∙ ap (λ o. rejoin s (rejoin_driver s.world o))
                (read10-exchange U depth h s.usb.block_size c payload m (chunk_bytes v)),
        rw (v.bytes) (
            read10-Decodes10 (tag_after m) c.lba c.nblocks s.usb.block_size rest (omega arith)
              address (chunk_count v) (omega (arith, v.bytes, v.fits))),
        served.0
            ∙ call-from_result s _
            ∙ ap (λ o. rejoin s (rejoin_driver s.world o))
                (write10-exchange U depth h s.usb.block_size c payload m (chunk_bytes v)),
        rw (v.bytes) (
            write10-Decodes10 (tag_after m) c.lba c.nblocks s.usb.block_size rest (omega arith)
              address (chunk_count v) (omega (arith, v.bytes, v.fits))),
      )

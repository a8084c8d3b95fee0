-- ===== src/Msc/Transfer.antt =====
-- Transfers and control requests of src/usb_mass_storage/usb_host_msc/src/msc_host.c. A setup
-- packet is handed to `msc_control_transfer`, which in C finds it in the transfer's buffer.
pub mod Length
pub mod Kept
use bindkey_esp.Base.{
  ℕ, bit_or, none, some, List, ltb, leb, if◌then◌else◌, length, take, overwrite, msc_internal,
  msc_stall,
}
use bindkey_esp.Base.Action.{Act, pure, throw, gets, ignore, deref, assert, ◌>>=◌, ◌>>◌}
use bindkey_esp.Msc.Types.{
  MscEndpoint, ep_out, ep_in, MscConfig, MscDevice, Xfer, TransferStatus, completed, stall,
  timed_out, other_status, Completion, SetupPacket, UsbHost, St, lib, load, store,
}

module _ {W : Type 0} (U : UsbHost W) where
  -- `USB_MASS_REQ_INIT_RESET`
  unfoldable pub reset_packet : ℕ → SetupPacket
  reset_packet intf_num = record {
    bm_request_type = bit_or (bit_or U.consts.dir_out U.consts.type_class) U.consts.recip_interface;
    b_request = 0xFF;
    w_value = 0;
    w_index = intf_num;
    w_length = 0;
  }

  -- `USB_SETUP_PACKET_INIT_CLEAR_FEATURE_EP`
  unfoldable pub clear_feature_packet : ℕ → SetupPacket
  clear_feature_packet ep_num = record {
    bm_request_type =
        bit_or (bit_or U.consts.dir_out U.consts.type_standard) U.consts.recip_endpoint;
    b_request = U.consts.clear_feature;
    w_value = 0;
    w_index = ep_num;
    w_length = 0;
  }

  unfoldable pub wait_for_transfer_done : Xfer → Act (St W) TransferStatus
  wait_for_transfer_done xfer = do
    received ← lib (U.semaphore_take (some xfer.timeout_ms))
    c ← gets (λ s. U.completion s.world)
    if received then pure c.status else do
      ignore (lib (U.endpoint_halt xfer.device_handle xfer.endpoint_address))
      ignore (lib (U.endpoint_flush xfer.device_handle xfer.endpoint_address))
      ignore (lib (U.endpoint_clear xfer.device_handle xfer.endpoint_address))
      ignore (lib (U.semaphore_take none))
      pure timed_out

  control_result : TransferStatus → Act (St W) (Unit {0})
  control_result completed = pure tt
  control_result stall = throw msc_internal
  control_result timed_out = throw msc_internal
  control_result (other_status n) = throw msc_internal

  unfoldable pub msc_control_transfer : ℕ → SetupPacket → ℕ → Act (St W) (Unit {0})
  unfolding load store wait_for_transfer_done control_result
  msc_control_transfer d packet len = do
    device ← load d
    old ← deref device.xfer
    let xfer = record old {
      device_handle = device.handle;
      endpoint_address = 0;
      timeout_ms = 5000;
      num_bytes = len;
    }
    store d (some (record device { xfer = some xfer }))
    driver ← (λ s. deref s.driver s)
    lib (U.transfer_submit_control driver.client_handle packet xfer)
    status ← wait_for_transfer_done xfer
    control_result status

  unfoldable pub clear_feature : ℕ → ℕ → Act (St W) (Unit {0})
  unfolding msc_control_transfer load clear_feature_packet
  clear_feature d endpoint = do
    device ← load d
    lib (U.endpoint_halt device.handle endpoint)
    lib (U.endpoint_flush device.handle endpoint)
    lib (U.endpoint_clear device.handle endpoint)
    msc_control_transfer d (clear_feature_packet endpoint) U.consts.setup_packet_size

  unfoldable pub msc_mass_reset : ℕ → Act (St W) (Unit {0})
  unfolding msc_control_transfer load reset_packet
  msc_mass_reset d = do
    device ← load d
    msc_control_transfer d (reset_packet device.config.iface_num) U.consts.setup_packet_size

  -- The number of bytes that a transfer asks for.
  unfoldable pub transfer_size : MscConfig → ℕ → MscEndpoint → ℕ
  transfer_size config size ep_in = U.round_up_to_mps size config.bulk_in_mps
  transfer_size config size ep_out = size

  -- Reallocates a transfer whose buffer is too small. Where the
  -- allocation fails the device still points to the transfer that was freed.
  ensure_buffer : ℕ → MscDevice → Xfer → ℕ → Act (St W) Xfer
  unfolding store
  ensure_buffer d device xfer needed =
      if ltb xfer.data_buffer_size needed
      then (do
        lib (U.transfer_free (some xfer))
        fresh ← lib (U.transfer_alloc needed)
        store d (some (record device { xfer = some fresh }))
        pure fresh)
      else pure xfer

  -- The endpoint, and for an OUT transfer the copy of `size` bytes of the caller's data.
  fill_buffer : MscConfig → Xfer → List ℕ → ℕ → MscEndpoint → Act (St W) Xfer
  fill_buffer config xfer payload size ep_in =
      pure (record xfer { endpoint_address = config.bulk_in_ep })
  fill_buffer config xfer payload size ep_out = do
    assert (leb size (length payload))
    pure (record xfer {
      endpoint_address = config.bulk_out_ep;
      data_buffer = overwrite 0 (take size payload) xfer.data_buffer;
    })

  -- The copy back of what an IN transfer received; a copy past the caller's buffer is a crash.
  copy_back : Completion → List ℕ → MscEndpoint → Act (St W) (List ℕ)
  copy_back c payload ep_out = pure payload
  copy_back c payload ep_in = do
    assert (leb c.actual_num_bytes (length payload))
    pure (overwrite 0 (take c.actual_num_bytes c.received) payload)

  bulk_result : TransferStatus → List ℕ → MscEndpoint → Act (St W) (List ℕ)
  unfolding copy_back
  bulk_result completed payload ep = do c ← gets (λ s. U.completion s.world); copy_back c payload ep
  bulk_result stall payload ep = throw msc_stall
  bulk_result timed_out payload ep = throw msc_internal
  bulk_result (other_status n) payload ep = throw msc_internal

  finish_transfer : Xfer → List ℕ → MscEndpoint → Act (St W) (List ℕ)
  unfolding wait_for_transfer_done bulk_result
  finish_transfer xfer payload ep = do
    status ← wait_for_transfer_done xfer
    bulk_result status payload ep

  run_transfer : ℕ → MscDevice → Xfer → List ℕ → MscEndpoint → Act (St W) (List ℕ)
  unfolding store finish_transfer
  run_transfer d device xfer payload ep = do
    store d (some (record device { xfer = some xfer }))
    lib (U.transfer_submit xfer)
    finish_transfer xfer payload ep

  -- Returns what the caller's buffer holds afterwards.
  unfoldable pub msc_bulk_transfer : ℕ → List ℕ → ℕ → MscEndpoint → Act (St W) (List ℕ)
  unfolding load transfer_size ensure_buffer fill_buffer run_transfer
  msc_bulk_transfer d payload size ep = do
    device ← load d
    old ← deref device.xfer
    let needed = transfer_size device.config size ep
    big ← ensure_buffer d device old needed
    filled ← fill_buffer device.config big payload size ep
    run_transfer d device
        (record filled { num_bytes = needed; device_handle = device.handle; timeout_ms = 5000 })
        payload ep

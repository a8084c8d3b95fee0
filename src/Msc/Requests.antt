-- ===== src/Msc/Requests.antt =====
-- What is left of src/usb_mass_storage/usb_host_msc/src/msc_host.c: the request for the number of
-- logical units, which the firmware does not make, printing the descriptors, and the background
-- task.
use bindkey_esp.Base.{ℕ, zero, suc, ◌+◌, bit_or, List, [], ◌++◌, Status, ok, err, get_or}
use bindkey_esp.Base.Action.{Act, pure, gets, deref, ◌>>=◌, ◌>>◌}
use bindkey_esp.MassStorage.Types.{MscEvent}
use bindkey_esp.Msc.Types.{SetupPacket, UsbHost, St, lib, load}
use bindkey_esp.Msc.Transfer.{msc_control_transfer}
use bindkey_esp.Msc.Client.{msc_host_handle_events}

module _ {W : Type 0} (U : UsbHost W) where
  -- `USB_MASS_REQ_INIT_GET_MAX_LUN`
  unfoldable pub max_lun_packet : ℕ → SetupPacket
  max_lun_packet intf_num = record {
    bm_request_type = bit_or (bit_or U.consts.dir_in U.consts.type_class) U.consts.recip_interface;
    b_request = 0xFE;
    w_value = 0;
    w_index = intf_num;
    w_length = 1;
  }

  -- The byte behind the setup packet in the transfer's buffer.
  unfoldable pub msc_get_max_lun : ℕ → Act (St W) ℕ
  unfolding load msc_control_transfer max_lun_packet
  msc_get_max_lun d = do
    device ← load d
    _ ← deref device.xfer
    msc_control_transfer U d (max_lun_packet device.config.iface_num)
        (U.consts.setup_packet_size + 1)
    c ← gets (λ s. U.completion s.world)
    pure (get_or c.received U.consts.setup_packet_size 0)

  -- The library's `usb_host_get_device_descriptor` is an argument; printing does nothing else.
  unfoldable pub msc_host_print_descriptors :
      ((dev : ℕ) → Act W (Unit {0})) → ℕ → Act (St W) (Unit {0})
  unfolding load
  msc_host_print_descriptors get_device_descriptor d = do
    device ← load d
    lib (get_device_descriptor device.handle)
    _ ← lib (U.get_active_config_descriptor device.handle)
    pure tt

  -- The result of the first call that does not return `ESP_OK`, within so many calls, and the
  -- events of all calls; the task ends with that call.
  unfoldable pub event_handler_task : ℕ → Act (St W) (Status × List MscEvent)
  unfolding msc_host_handle_events
  event_handler_task zero = pure (ok tt, [])
  event_handler_task (suc n) = do
    (status, events) ← msc_host_handle_events U
    after_round status events (event_handler_task n)
    where
      after_round :
          Status
          → List MscEvent
          → Act (St W) (Status × List MscEvent)
          → Act (St W) (Status × List MscEvent)
      after_round (err e) events again = pure (err e, events)
      after_round (ok _) events again = do (status, later) ← again; pure (status, events ++ later)

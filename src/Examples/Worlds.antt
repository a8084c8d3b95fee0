-- ===== src/Examples/Worlds.antt =====
-- The interfaces, filled with concrete functions.
use bindkey_esp.Base.{
  ℕ, suc, ◌+◌, ◌*◌, ◌<◌, ◌^◌, sym, ap, arith, true, Option, none, some, List, [], ◌∷◌, length,
  replicate, Result, ok, err, Status, EspErr, EspCodes, fail, no_mem, invalid_arg, invalid_state,
  invalid_size, not_supported, timeout, invalid_crc, msc_mount_failed, msc_format_failed,
  msc_internal, msc_stall, other,
}
use bindkey_esp.MassStorage.Types.{MscApi, Board}
use bindkey_esp.SpiLink.Link.{Peer}
use bindkey_esp.Msc.Types.{UsbHost, Xfer, completed}

abbrev pub code_of : EspErr → ℕ
code_of fail = 0xFFFF_FFFF
code_of no_mem = 0x101
code_of invalid_arg = 0x102
code_of invalid_state = 0x103
code_of invalid_size = 0x104
code_of not_supported = 0x106
code_of timeout = 0x107
code_of invalid_crc = 0x109
code_of msc_mount_failed = 0x1701
code_of msc_format_failed = 0x1702
code_of msc_internal = 0x1703
code_of msc_stall = 0x1704
code_of (other n) = 0x1

pub code_of-bounds : (e : EspErr) → (0 < code_of e) × (code_of e < 2 ^ 32)
code_of-bounds fail = (omega arith, omega arith)
code_of-bounds no_mem = (omega arith, omega arith)
code_of-bounds invalid_arg = (omega arith, omega arith)
code_of-bounds invalid_state = (omega arith, omega arith)
code_of-bounds invalid_size = (omega arith, omega arith)
code_of-bounds not_supported = (omega arith, omega arith)
code_of-bounds timeout = (omega arith, omega arith)
code_of-bounds invalid_crc = (omega arith, omega arith)
code_of-bounds msc_mount_failed = (omega arith, omega arith)
code_of-bounds msc_format_failed = (omega arith, omega arith)
code_of-bounds msc_internal = (omega arith, omega arith)
code_of-bounds msc_stall = (omega arith, omega arith)
code_of-bounds (other n) = (omega arith, omega arith)

abbrev pub idf_codes : EspCodes
idf_codes = record {
  esp_ok = 0;
  code = code_of;
  ok_fits = omega arith;
  code_fits = λ e. (code_of-bounds e).1;
  code_ne_ok = λ e h. absurd (omega (arith, h, (code_of-bounds e).0));
}

abbrev pub returned_length : Option (Result (Status × List ℕ) × ℕ) → ℕ
returned_length none = 0
returned_length (some (ok (st, out), w)) = length out
returned_length (some (err e, w)) = 0

-- A device that answers an installation with `invalid_state`; the world counts the calls.
abbrev pub busy_api : MscApi ℕ
busy_api = record {
  host_install = λ w. some (ok tt, suc w);
  msc_install = λ w. some (ok tt, suc w);
  install_device = λ a w. some (err invalid_state, suc w);
  uninstall_device = λ h w. some (ok tt, suc w);
  vfs_register = λ h w. some (err fail, suc w);
  vfs_unregister = λ v w. some (ok tt, suc w);
  handle_events = λ w. some (ok [], suc w);
  unit_ready = λ h w. some (ok (ok tt), suc w);
  read_capacity = λ h w. some (ok (ok tt, some (512, 4)), suc w);
  read10 = λ h buffer lba n size w. some (ok (ok tt, buffer), suc w);
  write10 = λ h payload lba n size w. some (ok (ok tt), suc w);
  length-read10 = λ h buffer lba n size w w' st out e. sym (ap returned_length e);
}

abbrev pub busy_board : Board ℕ
busy_board = record {
  api = busy_api;
  lib_handle_events = λ w. some (ok tt, suc w);
  instant_now = λ w. (w, w);
  sleep_ms = λ ms w. w + ms;
}

-- A master that sends zeros.
abbrev pub silent_peer : Peer
silent_peer = record {
  transfer = λ k. record { result = ok tt; bytes = replicate 16 0 };
  time_us = λ k. k * 10;
}

abbrev pub small_xfer : Xfer
small_xfer = record {
  data_buffer = replicate 64 0;
  data_buffer_size = 64;
  device_handle = 0;
  endpoint_address = 0;
  num_bytes = 0;
  timeout_ms = 0;
}

-- A library whose transfers all complete with three bytes.
abbrev pub three_bytes : UsbHost ℕ
three_bytes = record {
  consts = record {
    dir_out = 0;
    dir_in = 128;
    type_class = 32;
    type_standard = 0;
    recip_interface = 1;
    recip_endpoint = 2;
    clear_feature = 1;
    setup_packet_size = 8;
    class_mass_storage = 8;
    ep_dir_mask = 128;
  };
  round_up_to_mps = λ size mps. size;
  endpoint_halt = λ d e w. some (ok tt, w);
  endpoint_flush = λ d e w. some (ok tt, w);
  endpoint_clear = λ d e w. some (ok tt, w);
  transfer_alloc = λ size w. some (ok small_xfer, w);
  transfer_free = λ x w. some (ok tt, w);
  transfer_submit = λ x w. some (ok tt, suc w);
  transfer_submit_control = λ c p x w. some (ok tt, suc w);
  semaphore_take = λ t w. some (ok true, w);
  completion = λ w. record { status = completed; actual_num_bytes = 3; received = 1 ∷ 2 ∷ 3 ∷ [] };
  task_delay = λ ms w. w;
  uninit = λ n w. replicate n 0;
  device_open = λ c a w. some (ok 1, w);
  device_close = λ c d w. some (ok tt, w);
  get_active_config_descriptor = λ d w. some (ok [], w);
  interface_claim = λ c d i w. some (ok tt, w);
  interface_release = λ c d i w. some (ok tt, w);
  calloc_device = λ w. (some 7, suc w);
  create_semaphore = λ w. (true, w);
  delete_semaphore = λ w. w;
  calloc_driver = λ w. (true, w);
  client_register = λ w. some (ok 1, w);
  client_deregister = λ c w. some (ok tt, w);
  client_unblock = λ c w. some (ok tt, w);
  client_handle_events = λ c w. (ok tt, [], w);
  create_task = λ size priority w. (true, w);
  give_all_events = λ w. w;
  take_all_events = λ w. w;
  device_info = λ d w. some (err fail, w);
}

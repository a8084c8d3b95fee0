-- ===== src/Examples/Stick.antt =====
-- A library with a drive behind it that speaks the Bulk-Only Transport, so that the component's own
-- commands, from the command block to the status, serve it.
pub mod Stages
pub mod Drive
pub mod Read
pub mod Write
pub mod Probe
pub mod Whole
use bindkey_esp.Base.{
  ℕ, ◌+◌, ◌*◌, ◌%◌, ◌^◌, ◌<◌, ◌≤◌, ◌≡◌, refl, sym, ap, ◌∙◌, arith, true, Option, none, some, List,
  [], ◌∷◌, ◌++◌, ◌==◌, if◌then◌else◌, length, take, overwrite, get_or, replicate, ok, Result,
  take-overwrite_front, length-overwrite, take-length,
}
use bindkey_esp.Base.Words.{u32_at, u32_le}
use bindkey_esp.Base.Action.{Act}
use bindkey_esp.MassStorage.BlockDevice.Store.{Disk, sectors, stored, InReach}
use bindkey_esp.MassStorage.Component.Sectors.{tag_after, tagged}
use bindkey_esp.Msc.Types.{
  UsbHost, St, Xfer, MscDevice, Completion, DeviceStrings, completed, ep_out, ep_in, update,
}
use bindkey_esp.Msc.Transfer.{msc_bulk_transfer}
use bindkey_esp.Msc.Device.{zero_device}
use bindkey_esp.Msc.Command.{csw_signature, check_csw, read_csw}
use bindkey_esp.Msc.Command.Wire.{be32_at, be16_at, Decodes10}
use bindkey_esp.Examples.Worlds.{three_bytes, small_xfer}
use bindkey_esp.Examples.Store.{held}

-- What the drive does next: it waits for a command, moves its data, or reports its status.
pub data Phase : Type 0 where
  awaiting reporting telling : Phase
  sending storing : (lba n : ℕ) → Phase

pub record Stick : Type 0 where
  pub disk : Disk
  pub phase : Phase
  pub tag : ℕ
  pub last : Completion

abbrev pub done : List ℕ → ℕ → Completion
done bytes n = record { status = completed; actual_num_bytes = n; received = bytes }

abbrev pub begin : (opcode lba n : ℕ) → Phase
begin opcode lba n =
    if opcode == 0
    then reporting
    else if opcode == 0x25
    then telling
    else if opcode == 0x28
    then sending lba n
    else storing lba n

abbrev pub started : List ℕ → Stick → Stick
started frame w = record w {
  phase = begin (get_or frame 15 0) (be32_at 17 frame) (be16_at 22 frame);
  tag = u32_at 4 frame;
  last = done [] 31;
}

abbrev pub good_csw : ℕ → List ℕ
good_csw tag = u32_le csw_signature ++ (u32_le tag ++ (0 ∷ 0 ∷ 0 ∷ 0 ∷ 0 ∷ []))

abbrev pub step : Phase → Xfer → Stick → Stick
step awaiting x w = started (take x.num_bytes x.data_buffer) w
step reporting x w = record w { phase = awaiting; last = done (good_csw w.tag) 13 }
step telling x w = record w {
  phase = reporting;
  last = done (0 ∷ 0 ∷ 32 ∷ 0 ∷ 0 ∷ 0 ∷ 0 ∷ 2 ∷ []) 8;
}
step (sending lba n) x w = record w {
  phase = reporting;
  last = done (sectors (held w.disk) lba n) (n * 2);
}
step (storing lba n) x w = record w {
  disk = stored 2 lba n (take x.num_bytes x.data_buffer) w.disk;
  phase = reporting;
  last = done [] (n * 2);
}

pub step-completed : (p : Phase) (x : Xfer) (w : Stick) → (step p x w).last.status ≡ completed
step-completed awaiting x w = refl
step-completed reporting x w = refl
step-completed telling x w = refl
step-completed (sending lba n) x w = refl
step-completed (storing lba n) x w = refl

abbrev pub stick_host : UsbHost Stick
stick_host = record {
  consts = record {
    dir_out = 0;
    dir_in = 128;
    type_class = 32;
    type_standard = 0;
    recip_interface = 1;
    recip_endpoint = 2;
    clear_feature = 1;
    setup_packet_size = 8;
    class_mass_storage = 8;
    ep_dir_mask = 128;
  };
  round_up_to_mps = λ size mps. size;
  endpoint_halt = λ d e w. some (ok tt, w);
  endpoint_flush = λ d e w. some (ok tt, w);
  endpoint_clear = λ d e w. some (ok tt, w);
  transfer_alloc = λ size w. some (ok small_xfer, w);
  transfer_free = λ x w. some (ok tt, w);
  transfer_submit = λ x w. some (ok tt, step w.phase x w);
  transfer_submit_control = λ c p x w. some (ok tt, w);
  semaphore_take = λ t w. some (ok true, w);
  completion = λ w. w.last;
  task_delay = λ ms w. w;
  uninit = λ n w. replicate n 0;
  device_open = λ c a w. some (ok 1, w);
  device_close = λ c d w. some (ok tt, w);
  get_active_config_descriptor = λ d w. some (ok [], w);
  interface_claim = λ c d i w. some (ok tt, w);
  interface_release = λ c d i w. some (ok tt, w);
  calloc_device = λ w. (some 7, w);
  create_semaphore = λ w. (true, w);
  delete_semaphore = λ w. w;
  calloc_driver = λ w. (true, w);
  client_register = λ w. some (ok 1, w);
  client_deregister = λ c w. some (ok tt, w);
  client_unblock = λ c w. some (ok tt, w);
  client_handle_events = λ c w. (ok tt, [], w);
  create_task = λ size priority w. (true, w);
  give_all_events = λ w. w;
  take_all_events = λ w. w;
  device_info = λ d w. some (ok strings, w);
}
  where
    strings : DeviceStrings
    strings = record {
      id_product = 0;
      id_vendor = 0;
      manufacturer = none;
      product = none;
      serial_num = none;
    }

abbrev pub device_or : Option MscDevice → MscDevice
device_or none = zero_device
device_or (some device) = device

abbrev pub xfer_or : Option Xfer → Xfer
xfer_or none = small_xfer
xfer_or (some x) = x

abbrev pub device_in : St Stick → MscDevice
device_in m = device_or (m.heap 7)

abbrev pub xfer_in : St Stick → Xfer
xfer_in m = xfer_or (device_in m).xfer

-- A device is open whose transfer has room for 16384 bytes.
pub record HasRoom (m : St Stick) : Type 0 where
  pub there : m.heap 7 ≡ some (device_in m)
  pub allocated : (device_in m).xfer ≡ some (xfer_in m)
  pub room : (xfer_in m).data_buffer_size ≡ 16384
  pub sized : length (xfer_in m).data_buffer ≡ 16384

abbrev pub submitted : Xfer → St Stick → St Stick
submitted x m = record m {
  heap = update m.heap 7 (some (record (device_in m) { xfer = some x }));
  world = step m.world.phase x m.world;
}

abbrev pub out_xfer : List ℕ → ℕ → St Stick → Xfer
out_xfer payload size m = record (xfer_in m) {
  endpoint_address = (device_in m).config.bulk_out_ep;
  data_buffer = overwrite 0 (take size payload) (xfer_in m).data_buffer;
  num_bytes = size;
  device_handle = (device_in m).handle;
  timeout_ms = 5000;
}

abbrev pub in_xfer : ℕ → St Stick → Xfer
in_xfer size m = record (xfer_in m) {
  endpoint_address = (device_in m).config.bulk_in_ep;
  num_bytes = size;
  device_handle = (device_in m).handle;
  timeout_ms = 5000;
}

-- ===== src/Msc/Types.antt =====
-- The data of the MSC driver (src/usb_mass_storage/usb_host_msc/private_include/msc_common.h,
-- diskio_usb.h and the top of src/msc_host.c), and the USB Host Library and FreeRTOS calls that it
-- makes, which are not part of the repository and enter as the record `UsbHost`.
use bindkey_esp.Base.{ℕ, Bool, Option, none, some, List, ◌==◌, if◌then◌else◌, Result, ok, Status}
use bindkey_esp.Base.Action.{Act, deref}

pub data MscEndpoint : Type 0 where
  ep_out ep_in : MscEndpoint

pub record MscConfig : Type 0 where
  pub bulk_in_mps : ℕ
  pub bulk_in_ep : ℕ
  pub bulk_out_ep : ℕ
  pub iface_num : ℕ

-- The fields of `usb_transfer_t` that the driver sets or reads. The callback and its context are
-- always `transfer_callback` and the device itself.
pub record Xfer : Type 0 where
  pub data_buffer : List ℕ
  pub data_buffer_size : ℕ
  pub device_handle : ℕ
  pub endpoint_address : ℕ
  pub num_bytes : ℕ
  pub timeout_ms : ℕ

pub record UsbDisk : Type 0 where
  pub block_size : ℕ
  pub block_count : ℕ

-- `msc_device_t`; a field that `calloc` left null is `none` or `false`.
pub record MscDevice : Type 0 where
  pub transfer_done : Bool
  pub handle : ℕ
  pub xfer : Option Xfer
  pub config : MscConfig
  pub disk : UsbDisk

-- `msc_driver_t`; the queue holds the addresses of the devices, first in front.
pub record MscDriver : Type 0 where
  pub client_handle : Option ℕ
  pub all_events_handled : Bool
  pub end_client_event_handling : Bool
  pub event_handling_started : Bool
  pub devices_tailq : List ℕ

-- `usb_transfer_status_t`, as far as the driver tells the values apart.
pub data TransferStatus : Type 0 where
  completed stall timed_out : TransferStatus
  other_status : ℕ → TransferStatus

-- What the library has left in a transfer when its semaphore is given.
pub record Completion : Type 0 where
  pub status : TransferStatus
  pub actual_num_bytes : ℕ
  pub received : List ℕ

-- A setup packet as the driver fills it in.
pub record SetupPacket : Type 0 where
  pub bm_request_type : ℕ
  pub b_request : ℕ
  pub w_value : ℕ
  pub w_index : ℕ
  pub w_length : ℕ

-- An interface or endpoint descriptor of the active configuration, in descriptor order.
pub data Descriptor : Type 0 where
  interface : (number class sub_class protocol : ℕ) → Descriptor
  endpoint : (address max_packet_size : ℕ) → Descriptor
  other_descriptor : Descriptor

-- `usb_host_client_event_msg_t`.
pub data ClientEvent : Type 0 where
  new_dev : (address : ℕ) → ClientEvent
  dev_gone : (handle : ℕ) → ClientEvent
  other_client_event : ClientEvent

-- What the library tells of a device: the two ids, and the UTF-16 units of its string descriptors.
pub record DeviceStrings : Type 0 where
  pub id_product : ℕ
  pub id_vendor : ℕ
  pub manufacturer : Option (List ℕ)
  pub product : Option (List ℕ)
  pub serial_num : Option (List ℕ)

-- The numbers of the USB 2.0 specification that the library's headers name.
pub record UsbConsts : Type 0 where
  pub dir_out : ℕ
  pub dir_in : ℕ
  pub type_class : ℕ
  pub type_standard : ℕ
  pub recip_interface : ℕ
  pub recip_endpoint : ℕ
  pub clear_feature : ℕ
  pub setup_packet_size : ℕ
  pub class_mass_storage : ℕ
  pub ep_dir_mask : ℕ

pub record UsbHost (W : Type 0) : Type 0 where
  pub consts : UsbConsts
  pub round_up_to_mps : ℕ → ℕ → ℕ
  pub endpoint_halt : (dev ep : ℕ) → Act W (Unit {0})
  pub endpoint_flush : (dev ep : ℕ) → Act W (Unit {0})
  pub endpoint_clear : (dev ep : ℕ) → Act W (Unit {0})
  pub transfer_alloc : (size : ℕ) → Act W Xfer
  pub transfer_free : Option Xfer → Act W (Unit {0})
  pub transfer_submit : Xfer → Act W (Unit {0})
  pub transfer_submit_control : (client : Option ℕ) → SetupPacket → Xfer → Act W (Unit {0})
  pub semaphore_take : (timeout_ms : Option ℕ) → Act W Bool
  pub completion : W → Completion
  pub task_delay : (ms : ℕ) → W → W
  -- What an object holds that the code has not initialised, or that lies behind an object.
  pub uninit : ℕ → W → List ℕ
  pub device_open : (client : Option ℕ) (address : ℕ) → Act W ℕ
  pub device_close : (client : Option ℕ) (dev : ℕ) → Act W (Unit {0})
  pub get_active_config_descriptor : (dev : ℕ) → Act W (List Descriptor)
  pub interface_claim : (client : Option ℕ) (dev iface : ℕ) → Act W (Unit {0})
  pub interface_release : (client : Option ℕ) (dev iface : ℕ) → Act W (Unit {0})
  -- `calloc` of a device: its address, or `none`.
  pub calloc_device : W → Option ℕ × W
  -- Whether a semaphore could be made.
  pub create_semaphore : W → Bool × W
  pub delete_semaphore : W → W
  pub calloc_driver : W → Bool × W
  pub client_register : Act W ℕ
  pub client_deregister : (client : Option ℕ) → Act W (Unit {0})
  pub client_unblock : (client : Option ℕ) → Act W (Unit {0})
  -- The status, and the events that the client's callback receives while the call runs.
  pub client_handle_events : (client : Option ℕ) → W → Status × List ClientEvent × W
  pub create_task : (stack_size task_priority : ℕ) → W → Bool × W
  -- Giving and taking the semaphore `all_events_handled`.
  pub give_all_events : W → W
  pub take_all_events : W → W
  pub device_info : (dev : ℕ) → Act W DeviceStrings

-- The driver's memory: the static `s_msc_driver` and `cbw_tag`, the devices by address, and the
-- world of the libraries.
pub record St (W : Type 0) : Type 0 where
  pub driver : Option MscDriver
  pub heap : ℕ → Option MscDevice
  pub cbw_tag : ℕ
  pub world : W

abbrev pub update : (ℕ → Option MscDevice) → ℕ → Option MscDevice → ℕ → Option MscDevice
update h d v a = if a == d then v else h a

module _ {W : Type 0} where
  abbrev pub rebuild : {A : Type 0} → St W → Option (Result A × W) → Option (Result A × St W)
  rebuild s none = none
  rebuild s (some (r, w)) = some (r, record s { world = w })

  -- A call of the libraries leaves the driver's own memory alone.
  abbrev pub lib : {A : Type 0} → Act W A → Act (St W) A
  lib m s = rebuild s (m s.world)

  -- A read through a device pointer.
  unfoldable pub load : ℕ → Act (St W) MscDevice
  load d s = deref (s.heap d) s

  -- A write of the whole struct, or `free` for `none`.
  unfoldable pub store : ℕ → Option MscDevice → Act (St W) (Unit {0})
  store d v s = some (ok tt, record s { heap = update s.heap d v })

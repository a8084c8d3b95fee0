-- ===== src/Msc/Descriptors.antt =====
-- The search of a configuration descriptor in src/usb_mass_storage/usb_host_msc/src/msc_host.c.
-- The parser of the USB Host Library gives the descriptors in their order, as a list; a search
-- that goes on behind a descriptor goes on in the rest of the list.
pub mod Search
use bindkey_esp.Base.{
  ℕ, bit_and, Bool, ◌&&◌, not, Option, none, some, List, [], ◌∷◌, ◌==◌, if◌then◌else◌, ok, err,
  Status, not_supported,
}
use bindkey_esp.Msc.Types.{MscConfig, Descriptor, interface, endpoint, other_descriptor, UsbHost}

abbrev pub scsi_command_set : ℕ
scsi_command_set = 0x06

abbrev pub bulk_only_transfer : ℕ
bulk_only_transfer = 0x50

-- The fields of an endpoint descriptor that the driver reads.
pub record Endpoint : Type 0 where
  pub address : ℕ
  pub max_packet_size : ℕ

-- `next_endpoint_desc`, with what follows the endpoint.
unfoldable pub next_endpoint_desc : List Descriptor → Option (Endpoint × List Descriptor)
next_endpoint_desc [] = none
next_endpoint_desc (endpoint a mps ∷ rest) =
    some (record { address = a; max_packet_size = mps }, rest)
next_endpoint_desc (interface n c sc p ∷ rest) = next_endpoint_desc rest
next_endpoint_desc (other_descriptor ∷ rest) = next_endpoint_desc rest

module _ {W : Type 0} (U : UsbHost W) where
  unfoldable pub is_in_endpoint : ℕ → Bool
  is_in_endpoint a = not (bit_and a U.consts.ep_dir_mask == 0)

  abbrev pub is_msc : (class sub_class protocol : ℕ) → Bool
  is_msc c sc p =
      c == U.consts.class_mass_storage && sc == scsi_command_set && p == bulk_only_transfer

  -- The number of the first mass storage interface, and what follows its descriptor.
  unfoldable pub find_msc_interface : List Descriptor → Option (ℕ × List Descriptor)
  find_msc_interface [] = none
  find_msc_interface (endpoint a mps ∷ rest) = find_msc_interface rest
  find_msc_interface (other_descriptor ∷ rest) = find_msc_interface rest
  find_msc_interface (interface n c sc p ∷ rest) =
      let later = find_msc_interface rest in if is_msc c sc p then some (n, rest) else later

  -- The endpoint's fields, stored by its direction.
  unfoldable pub store_endpoint : Endpoint → MscConfig → MscConfig
  unfolding is_in_endpoint
  store_endpoint e cfg =
      if is_in_endpoint e.address
      then record cfg { bulk_in_ep = e.address; bulk_in_mps = e.max_packet_size }
      else record cfg { bulk_out_ep = e.address }

  second_endpoint : Option (Endpoint × List Descriptor) → MscConfig → Status × MscConfig
  unfolding store_endpoint
  second_endpoint none cfg = (err not_supported, cfg)
  second_endpoint (some (e, rest)) cfg = (ok tt, store_endpoint e cfg)

  first_endpoint : Option (Endpoint × List Descriptor) → MscConfig → Status × MscConfig
  unfolding second_endpoint next_endpoint_desc
  first_endpoint none cfg = (err not_supported, cfg)
  first_endpoint (some (e, rest)) cfg =
      second_endpoint (next_endpoint_desc rest) (store_endpoint e cfg)

  config_of : Option (ℕ × List Descriptor) → MscConfig → Option (Status × MscConfig)
  unfolding first_endpoint
  config_of none cfg = none
  config_of (some (n, rest)) cfg =
      some (first_endpoint (next_endpoint_desc rest) (record cfg { iface_num = n }))

  -- The status and the configuration, which an error leaves half filled in; `none` is the failed
  -- assertion that there is a mass storage interface.
  unfoldable pub extract_config_from_descriptor :
      List Descriptor → MscConfig → Option (Status × MscConfig)
  unfolding config_of find_msc_interface
  extract_config_from_descriptor descriptors cfg = config_of (find_msc_interface descriptors) cfg

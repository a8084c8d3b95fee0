-- ===== src/Examples/Host.antt =====
-- The MSC component at concrete inputs.
use bindkey_esp.Base.{ℕ, ◌*◌, ◌≡◌, refl, arith, true, false, Option, none, some, [], ◌∷◌, ◌++◌, ok}
use bindkey_esp.Base.Action.{pure}
use bindkey_esp.Msc.Types.{MscConfig, MscDevice, interface, endpoint, other_descriptor, St}
use bindkey_esp.Msc.Command.{Csw, csw_signature, command, command_bytes, read10_block, dir_in}
use bindkey_esp.Msc.Command.Wire.{Decodes10, read10-Decodes10}
use bindkey_esp.Msc.Descriptors.{is_in_endpoint, extract_config_from_descriptor}
use bindkey_esp.Msc.Descriptors.Search.{extract_config_either_order}
use bindkey_esp.Msc.Device.{zero_device, msc_host_install_device}
use bindkey_esp.Msc.Device.Queue.{msc_host_install_device_no_driver}
use bindkey_esp.Examples.Worlds.{three_bytes, small_xfer}

read10-Decodes10_example :
    Decodes10
      (command_bytes (command dir_in 9 (8 * 512) (read10_block 2 8)) ++ (0 ∷ []))
      9
      (8 * 512)
      dir_in
      0x28
      2
      8
read10-Decodes10_example =
    read10-Decodes10 9 2 8 512 (0 ∷ []) (omega arith) (omega arith) (omega arith) (omega arith)

abbrev failed_csw : Csw
failed_csw = record { signature = csw_signature; tag = 9; data_residue = 0; status = 1 }

abbrev heap_with_device : ℕ → Option MscDevice
heap_with_device d = some (record zero_device { xfer = some small_xfer })

abbrev host : St ℕ
host = record { driver = none; heap = heap_with_device; cbw_tag = 0; world = 0 }

abbrev expected_config : MscConfig
expected_config = record { bulk_in_mps = 64; bulk_in_ep = 129; bulk_out_ep = 2; iface_num = 1 }

is_in : is_in_endpoint three_bytes 129 ≡ true
unfolding is_in_endpoint
is_in = refl

is_out : is_in_endpoint three_bytes 2 ≡ false
unfolding is_in_endpoint
is_out = refl

extract_config_example :
    (extract_config_from_descriptor three_bytes
        (interface 0 3 0 0
          ∷ interface 1 8 6 80
          ∷ other_descriptor
          ∷ endpoint 129 64
          ∷ endpoint 2 64
          ∷ [])
        zero_device.config
      ≡ some (ok tt, expected_config))
    × (extract_config_from_descriptor three_bytes
          (interface 0 3 0 0
            ∷ interface 1 8 6 80
            ∷ other_descriptor
            ∷ endpoint 2 64
            ∷ endpoint 129 64
            ∷ [])
          zero_device.config
        ≡ some (ok tt, expected_config))
extract_config_example =
    extract_config_either_order three_bytes (interface 0 3 0 0 ∷ []) (other_descriptor ∷ []) [] [] 1
      8 6 80 129 64 2 64 zero_device.config (refl, tt) refl tt tt is_in is_out

msc_host_install_device_no_driver_example :
    msc_host_install_device three_bytes (λ d. pure tt) 3 host ≡ none
msc_host_install_device_no_driver_example =
    msc_host_install_device_no_driver three_bytes (λ d. pure tt) 3 host 7 1 refl refl

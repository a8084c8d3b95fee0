-- ===== src/Msc/Descriptors/Search.antt =====
-- What the search of a configuration descriptor finds
-- (src/usb_mass_storage/usb_host_msc/src/msc_host.c, `find_msc_interface` and
-- `extract_config_from_descriptor`).
use bindkey_esp.Base.{ℕ, ◌≡◌, refl, true, false, some, List, [], ◌∷◌, ◌++◌, ok}
use bindkey_esp.Msc.Types.{MscConfig, Descriptor, interface, endpoint, other_descriptor, UsbHost}
use bindkey_esp.Msc.Descriptors.{
  is_msc, is_in_endpoint, store_endpoint, find_msc_interface, next_endpoint_desc,
  extract_config_from_descriptor,
}

-- Descriptors with no endpoint among them.
abbrev pub NoEndpoint : List Descriptor → Type 0
NoEndpoint [] = Unit
NoEndpoint (interface n c sc p ∷ rest) = NoEndpoint rest
NoEndpoint (endpoint a mps ∷ rest) = ⊥
NoEndpoint (other_descriptor ∷ rest) = NoEndpoint rest

next_endpoint_desc_skip :
    (before after : List Descriptor)
    → NoEndpoint before
    → next_endpoint_desc (before ++ after) ≡ next_endpoint_desc after
unfolding next_endpoint_desc
next_endpoint_desc_skip [] after h = refl
next_endpoint_desc_skip (interface n c sc p ∷ rest) after h = next_endpoint_desc_skip rest after h
next_endpoint_desc_skip (endpoint a mps ∷ rest) after h = absurd h
next_endpoint_desc_skip (other_descriptor ∷ rest) after h = next_endpoint_desc_skip rest after h

module _ {W : Type 0} (U : UsbHost W) where
  -- No interface of the list is a mass storage interface.
  abbrev pub NoMsc : List Descriptor → Type 0
  NoMsc [] = Unit
  NoMsc (interface n c sc p ∷ rest) = (is_msc U c sc p ≡ false) × NoMsc rest
  NoMsc (endpoint a mps ∷ rest) = NoMsc rest
  NoMsc (other_descriptor ∷ rest) = NoMsc rest

  find_msc_interface_skip :
      (before after : List Descriptor)
      → NoMsc before
      → find_msc_interface U (before ++ after) ≡ find_msc_interface U after
  unfolding find_msc_interface
  find_msc_interface_skip [] after h = refl
  find_msc_interface_skip (interface n c sc p ∷ rest) after h =
      rw h.0 (find_msc_interface_skip rest after h.1)
  find_msc_interface_skip (endpoint a mps ∷ rest) after h = find_msc_interface_skip rest after h
  find_msc_interface_skip (other_descriptor ∷ rest) after h = find_msc_interface_skip rest after h

  -- The fields that the two endpoints fill in, the first one first.
  abbrev two_endpoints : ℕ → ℕ → ℕ → ℕ → ℕ → MscConfig → MscConfig
  two_endpoints n a m b k cfg =
      store_endpoint U (record { address = b; max_packet_size = k })
        (store_endpoint U (record { address = a; max_packet_size = m })
          (record cfg { iface_num = n }))

  extract_config-two_endpoints :
      (before gap between rest : List Descriptor) (n c sc p a m b k : ℕ) (cfg : MscConfig)
      → NoMsc before
      → is_msc U c sc p ≡ true
      → NoEndpoint gap
      → NoEndpoint between
      → extract_config_from_descriptor U
          (before
            ++ (interface n c sc p ∷ gap ++ (endpoint a m ∷ between ++ (endpoint b k ∷ rest))))
          cfg
        ≡ some (ok tt, two_endpoints n a m b k cfg)
  unfolding extract_config_from_descriptor find_msc_interface next_endpoint_desc
  extract_config-two_endpoints before gap between rest n c sc p a m b k cfg h t g f =
      rw
        (
          find_msc_interface_skip before
              (interface n c sc p ∷ gap ++ (endpoint a m ∷ between ++ (endpoint b k ∷ rest))) h,
          t,
          next_endpoint_desc_skip gap (endpoint a m ∷ between ++ (endpoint b k ∷ rest)) g,
          next_endpoint_desc_skip between (endpoint b k ∷ rest) f,
        )
        refl

  -- The configuration of a device whose first mass storage interface is followed by an IN and an
  -- OUT endpoint is the interface's number and the two endpoints, in whichever order the endpoints
  -- stand and whatever other descriptors are in front of them.
  pub extract_config_either_order :
      (before gap between rest : List Descriptor) (n c sc p in_ep in_mps out_ep out_mps : ℕ)
      (cfg : MscConfig)
      → NoMsc before
      → is_msc U c sc p ≡ true
      → NoEndpoint gap
      → NoEndpoint between
      → is_in_endpoint U in_ep ≡ true
      → is_in_endpoint U out_ep ≡ false
      → (extract_config_from_descriptor U
            (before
              ++ (interface n c sc p ∷ gap
                  ++ (endpoint in_ep in_mps ∷ between ++ (endpoint out_ep out_mps ∷ rest))))
            cfg
          ≡ some (
            ok tt,
            record {
              bulk_in_mps = in_mps;
              bulk_in_ep = in_ep;
              bulk_out_ep = out_ep;
              iface_num = n;
            },
          ))
        × (extract_config_from_descriptor U
              (before
                ++ (interface n c sc p ∷ gap
                    ++ (endpoint out_ep out_mps ∷ between ++ (endpoint in_ep in_mps ∷ rest))))
              cfg
            ≡ some (
              ok tt,
              record {
                bulk_in_mps = in_mps;
                bulk_in_ep = in_ep;
                bulk_out_ep = out_ep;
                iface_num = n;
              },
            ))
  unfolding store_endpoint
  extract_config_either_order before gap between rest n c sc p in_ep in_mps out_ep out_mps cfg h k g
        t i o =
      (
        rw
            (
              extract_config-two_endpoints before gap between rest n c sc p in_ep in_mps out_ep
                  out_mps cfg h k g t,
              i,
              o,
            )
            refl,
        rw
            (
              extract_config-two_endpoints before gap between rest n c sc p out_ep out_mps in_ep
                  in_mps cfg h k g t,
              i,
              o,
            )
            refl,
      )

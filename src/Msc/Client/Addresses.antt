-- ===== src/Msc/Client/Addresses.antt =====
-- The addresses that reach the user's callback in
-- src/usb_mass_storage/usb_host_msc/src/msc_host.c.
use bindkey_esp.Base.{
  ℕ, ◌<◌, Option, none, some, Bool, true, false, List, [], ◌∷◌, ◌++◌, ok, arith, if◌then◌else◌,
  Status,
}
use bindkey_esp.Base.Returns.{Returns, Returns-resume, Returns-resume_from}
use bindkey_esp.MassStorage.Types.{MscEvent, connected}
use bindkey_esp.MassStorage.Driver.Coherence.{AllInByte}
use bindkey_esp.Msc.Types.{
  ClientEvent, new_dev, dev_gone, other_client_event, MscDriver, UsbHost, St,
}
use bindkey_esp.Msc.Client.{
  is_mass_storage_device, find_msc_device, gone_events, client_event_cb, callbacks,
  handle_client_events, msc_host_handle_events,
}

-- A new device has a byte as its address.
abbrev pub HasByteAddress : ClientEvent → Type 0
HasByteAddress (new_dev address) = address < 256
HasByteAddress (dev_gone handle) = Unit
HasByteAddress other_client_event = Unit

abbrev pub AllHaveByteAddress : List ClientEvent → Type 0
AllHaveByteAddress [] = Unit
AllHaveByteAddress (event ∷ events) = HasByteAddress event × AllHaveByteAddress events

AllInByte-append : (xs ys : List MscEvent) → AllInByte xs → AllInByte ys → AllInByte (xs ++ ys)
AllInByte-append [] ys h k = k
AllInByte-append (x ∷ xs) ys h k = (h.0, AllInByte-append xs ys h.1 k)

module _ {W : Type 0} (U : UsbHost W) where
  client_event_cb-InByte :
      (event : ClientEvent) (s : St W)
      → HasByteAddress event
      → Returns AllInByte (client_event_cb U event s)
  unfolding client_event_cb Returns gone_events
  client_event_cb-InByte (new_dev address) s h =
      Returns-resume AllInByte (is_mass_storage_device U address s) _
        λ is_msc s'. reported is_msc s'
    where
      reported :
          (is_msc : Bool) (s' : St W)
          → Returns AllInByte (some (ok (if is_msc then connected address ∷ [] else []), s'))
      reported true s' = (h, tt)
      reported false s' = tt
  client_event_cb-InByte (dev_gone handle) s h =
      Returns-resume AllInByte (find_msc_device U handle s) _ λ found s'. gone found s'
    where
      gone :
          (found : Option ℕ) (s' : St W) → Returns AllInByte (some (ok (gone_events U found), s'))
      gone none s' = tt
      gone (some d) s' = (tt, tt)
  client_event_cb-InByte other_client_event s h = tt

  callbacks-InByte :
      (events : List ClientEvent) (s : St W)
      → AllHaveByteAddress events
      → Returns AllInByte (callbacks U events s)
  unfolding callbacks Returns
  callbacks-InByte [] s h = tt
  callbacks-InByte (event ∷ events) s h =
      Returns-resume_from AllInByte AllInByte (client_event_cb U event s) _
        (client_event_cb-InByte event s h.0)
        λ first s' k.
          Returns-resume_from AllInByte AllInByte (callbacks U events s') _
            (callbacks-InByte events s' h.1) λ later s'' l. AllInByte-append first later k l

  -- The events that a call reports.
  abbrev pub Reports : Status × List MscEvent → Type 0
  Reports reply = AllInByte reply.1

  module _
      (bytes : (client : Option ℕ) (w : W)
        → AllHaveByteAddress (U.client_handle_events client w).1) where
    handle_client_events-InByte :
        (driver : Option MscDriver) (s : St W) → Returns Reports (handle_client_events U driver s)
    unfolding handle_client_events Returns
    handle_client_events-InByte none s = tt
    handle_client_events-InByte (some driver) s =
        let events = (U.client_handle_events driver.client_handle s.world).1 in
        let after : St W = record s {
          driver = some (record driver { event_handling_started = true });
          world = (U.client_handle_events driver.client_handle s.world).2;
        } in
        Returns-resume_from Reports AllInByte (callbacks U events after) _
          (callbacks-InByte events after (bytes driver.client_handle s.world))
          λ delivered s' k. ground (arith, k)

    -- If the library tells of devices with byte addresses only, so do the events that reach the
    -- user.
    pub msc_host_handle_events-InByte : (s : St W) → Returns Reports (msc_host_handle_events U s)
    unfolding msc_host_handle_events
    msc_host_handle_events-InByte s = handle_client_events-InByte s.driver s

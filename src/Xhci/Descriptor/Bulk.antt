-- ===== src/Xhci/Descriptor/Bulk.antt =====
-- The endpoints that `handle_mass_storage_device` picks.
use mushix.Prelude.{
  ℕ, ◌+◌, ◌*◌, ◌≡◌, ◌⊎◌, inl, inr, refl, bit_and, Bool, true, false, List, [], ◌∷◌, Option, none,
  some, Result, ok, err, panic,
}
use mushix.Xhci.Descriptor.{
  UsbDescriptor, config, interface, endpoint, unknown, EndpointDescriptor, Scan, start, scan,
  see_endpoint, is_in, is_bulk, BulkEndpoints, bulk_endpoints, pick, see_config, ConfigDescriptor,
  InterfaceDescriptor,
}

abbrev IsPicked : Bool → Option EndpointDescriptor → Type 0
IsPicked direction none = Unit
IsPicked direction (some ep) = (is_bulk ep ≡ true) × (is_in ep ≡ direction)

abbrev pub IsScan : Scan → Type 0
IsScan s = IsPicked true s.bulk_in_ep × IsPicked false s.bulk_out_ep

see_endpoint-IsScan : (s : Scan) (ep : EndpointDescriptor) → IsScan s → IsScan (see_endpoint s ep)
see_endpoint-IsScan s ep v = by_kind (is_bulk ep) refl (is_in ep) refl
  where
    by_kind : (b : Bool) → is_bulk ep ≡ b → (d : Bool) → is_in ep ≡ d → IsScan (see_endpoint s ep)
    by_kind false e d f = rw e v
    by_kind true e true f = rw (e, f) ((e, f), v.1)
    by_kind true e false f = rw (e, f) (v.0, (e, f))

see_config-IsScan :
    (o : Option InterfaceDescriptor) (s s' : Scan)
    → IsScan s
    → IsScan s'
    → IsScan (see_config o s s')
see_config-IsScan none s s' v v' = v'
see_config-IsScan (some i) s s' v v' = v

scan-IsScan : (ds : List UsbDescriptor) (s : Scan) → IsScan s → IsScan (scan ds s)
unfolding scan
scan-IsScan [] s v = v
scan-IsScan (config c ∷ ds) s v =
    see_config-IsScan s.usb_interface s
      (scan ds (record s { last_config = some c; ep_desc_list = [] })) v
      (scan-IsScan ds (record s { last_config = some c; ep_desc_list = [] }) v)
scan-IsScan (interface i ∷ ds) s v = scan-IsScan ds (record s { usb_interface = some i }) v
scan-IsScan (endpoint ep ∷ ds) s v = scan-IsScan ds (see_endpoint s ep) (see_endpoint-IsScan s ep v)
scan-IsScan (unknown l t ∷ ds) s v = scan-IsScan ds s v

-- What is known of the result: on success the endpoints and their context indices, and an error
-- only for a descriptor that the list lacks.
abbrev pub Picked : Scan → Result BulkEndpoints → Type 0
Picked s (ok b) =
    (is_bulk b.bulk_in ≡ true)
    × (is_in b.bulk_in ≡ true)
    × (is_bulk b.bulk_out ≡ true)
    × (is_in b.bulk_out ≡ false)
    × (b.bulk_in_dci ≡ bit_and b.bulk_in.endpoint_address 0xf * 2 + 1)
    × (b.bulk_out_dci ≡ bit_and b.bulk_out.endpoint_address 0xf * 2)
Picked s (err e) =
    (s.last_config ≡ none)
    ⊎ (s.usb_interface ≡ none)
    ⊎ (s.bulk_in_ep ≡ none)
    ⊎ (s.bulk_out_ep ≡ none)
Picked s (panic e) = ◌≡◌ {A = ℕ} 0 1

pick_lem : (s : Scan) → IsScan s → Picked s (pick s)
unfolding pick
pick_lem s v = by_parts s.last_config refl s.usb_interface refl s.bulk_in_ep refl s.bulk_out_ep refl
  where
    by_parts :
        (c : Option ConfigDescriptor)
        → s.last_config ≡ c
        → (u : Option InterfaceDescriptor) → s.usb_interface ≡ u
        → (i : Option EndpointDescriptor) → s.bulk_in_ep ≡ i
        → (o : Option EndpointDescriptor) → s.bulk_out_ep ≡ o
        → Picked s (pick s)
    by_parts none ec u eu i ei o eo = rw ec (inl refl)
    by_parts (some c) ec none eu i ei o eo = rw (ec, eu) (inr (inl refl))
    by_parts (some c) ec (some u) eu none ei o eo = rw (ec, eu, ei) (inr (inr (inl refl)))
    by_parts (some c) ec (some u) eu (some i) ei none eo =
        rw (ec, eu, ei, eo) (inr (inr (inr refl)))
    by_parts (some c) ec (some u) eu (some i) ei (some o) eo =
        let vi : (is_bulk i ≡ true) × (is_in i ≡ true) = rw ei at v.0 in
        let vo : (is_bulk o ≡ true) × (is_in o ≡ false) = rw eo at v.1 in
        rw (ec, eu, ei, eo, vi.1, vo.1) (vi.0, vi.1, vo.0, vo.1, refl, refl)

-- Whatever the descriptors, the two direction checks behind the scan never fail: a mass-storage
-- device is refused only for a missing configuration, interface or bulk endpoint, and otherwise
-- the endpoints picked are bulk endpoints of their directions with an odd and an even index.
pub bulk_endpoints_lem : (ds : List UsbDescriptor) → Picked (scan ds start) (bulk_endpoints ds)
unfolding bulk_endpoints
bulk_endpoints_lem ds = pick_lem (scan ds start) (scan-IsScan ds start (tt, tt))

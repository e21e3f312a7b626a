-- ===== src/Xhci/Identify/Whole.antt =====
-- The identification of a device by `run` of src/xhci.rs as a whole.
use mushix.Prelude.{ℕ, ◌+◌, ◌*◌, ◌^◌, ◌<◌, ◌≡◌, refl, List, length, get_or, some, ok}
use mushix.Xhci.Descriptor.Iterate.{descriptors_of}
use mushix.Xhci.Command.Push.{IsCommandRing}
use mushix.Xhci.Control.{Xhc, Endpoint}
use mushix.Xhci.Identify.{Buffers, Identity, read_device, identify, identify_with}
use mushix.Xhci.Identify.Served.{IsServed}
use mushix.Xhci.Identify.Reads.{
  Describes, named, request_device_descriptor_lem, request_string_descriptor_zero_lem,
  optional_string_lem, request_config_descriptor_and_rest_lem,
}

-- What the driver should find out about a device.
abbrev pub identity_of : List ℕ → (ℕ → List ℕ) → List (List ℕ) → Identity
identity_of b text cs = record {
  device_descriptor = read_device b;
  vendor = named text (get_or b 14 0);
  product = named text (get_or b 15 0);
  serial = named text (get_or b 16 0);
  descriptors = some (descriptors_of cs);
}

module _ {content : ℕ → ℕ → ℕ → List ℕ} {b : List ℕ} {text : ℕ → List ℕ} {l0 l1 : ℕ}
    {cs : List (List ℕ)} (d : Describes content b text l0 l1 cs) (xhc : Xhc) (slot : ℕ)
    (s : IsServed xhc slot content) (bufs : Buffers) (fuel : ℕ) (h : length cs < fuel)
    (e : Endpoint) (v : IsCommandRing e.ring) where
  identify_with_lem :
      (e' : Endpoint) × (identify_with fuel xhc bufs slot (l0 + l1 * 2 ^ 8) (read_device b) e
        ≡ (ok (some (identity_of b text cs)), e'))
      × IsCommandRing e'.ring
  unfolding identify_with
  identify_with_lem =
      let (e1, first, good1) =
        optional_string_lem d xhc slot s e v bufs.vendor_buf (get_or b 14 0) d.vendor in
      let (e2, second, good2) =
        optional_string_lem d xhc slot s e1 good1 bufs.product_buf (get_or b 15 0) d.product in
      let (e3, third, good3) =
        optional_string_lem d xhc slot s e2 good2 bufs.serial_buf (get_or b 16 0) d.serial in
      let (e4, last, good4) =
        request_config_descriptor_and_rest_lem d xhc slot s e3 good3 fuel bufs.config_buf
          bufs.rest_buf h in
      (e4, rw (first, second, third, last) refl, good4)

module _ {content : ℕ → ℕ → ℕ → List ℕ} {b : List ℕ} {text : ℕ → List ℕ} {l0 l1 : ℕ}
    {cs : List (List ℕ)} where
  -- A device whose slot has a doorbell, and that answers each GET_DESCRIPTOR with a success and
  -- with the first bytes of its descriptor, is identified: the driver gets the device's
  -- descriptor, exactly those ASCII strings of at most 63 characters whose index is not
  -- 0, and all descriptors of its configuration in order. The ring of endpoint 0 is
  -- well formed behind it, and the iterator's fuel need only exceed the number of descriptors.
  pub identify_lem :
      (d : Describes content b text l0 l1 cs) (xhc : Xhc) (slot : ℕ) (s : IsServed xhc slot content)
      (bufs : Buffers) (fuel : ℕ) (h : length cs < fuel) (e : Endpoint) (v : IsCommandRing e.ring)
      → (e' : Endpoint) × (identify fuel xhc bufs slot e ≡ (ok (some (identity_of b text cs)), e'))
        × IsCommandRing e'.ring
  unfolding identify
  identify_lem d xhc slot s bufs fuel h e v =
      let (e1, first, good1) = request_device_descriptor_lem d xhc slot s e v bufs.device_buf in
      let (e2, zero_words, second, lang, good2) =
        request_string_descriptor_zero_lem d xhc slot s e1 good1 bufs.zero_buf in
      let (e3, last, good3) = identify_with_lem d xhc slot s bufs fuel h e2 good2 in
      (e3, rw (first, second, lang, last) refl, good3)

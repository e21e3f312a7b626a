-- ===== src/Xhci/Descriptor.antt =====
-- The USB descriptors of src/xhci.rs: `DescriptorIterator`, and how `handle_mass_storage_device` picks its
-- endpoints.
pub mod Iterate
pub mod Bulk
pub mod Sample
mod Examples
use mushix.Prelude.{
  ℕ, zero, suc, ◌+◌, ◌-◌, ◌*◌, ◌%◌, ◌^◌, bit_and, Bool, true, false, not, List, [], ◌∷◌, ◌++◌,
  length, drop, get_or, Option, none, some, ltb, leb, ◌==◌, if◌then◌else◌, Result, ok, err, panic,
  ok_or, ◌>>=◌, ◌>>◌,
}
use mushix.Bytes.{from_le_16}

pub record ConfigDescriptor : Type 0 where
  pub total_length : ℕ
  pub num_of_interfaces : ℕ
  pub config_value : ℕ
  pub config_string_index : ℕ
  pub attributes : ℕ
  pub max_power : ℕ

pub record InterfaceDescriptor : Type 0 where
  pub interface_number : ℕ
  pub alt_setting : ℕ
  pub num_of_endpoints : ℕ
  pub interface_class : ℕ
  pub interface_subclass : ℕ
  pub interface_protocol : ℕ
  pub interface_index : ℕ

pub record EndpointDescriptor : Type 0 where
  pub endpoint_address : ℕ
  pub ep_attributes : ℕ
  pub max_packet_size : ℕ
  pub interval : ℕ

pub data UsbDescriptor : Type 0 where
  config : ConfigDescriptor → UsbDescriptor
  interface : InterfaceDescriptor → UsbDescriptor
  endpoint : EndpointDescriptor → UsbDescriptor
  unknown : (desc_len desc_type : ℕ) → UsbDescriptor

abbrev byte : List ℕ → ℕ → ℕ
byte buf i = get_or buf i 0

-- `copy_from_slice(buf).ok()` of src/slice.rs for a type of `size` bytes, read by `f`.
abbrev pub copy_from_slice : (size : ℕ) → (List ℕ → UsbDescriptor) → List ℕ → Option UsbDescriptor
copy_from_slice size f buf = if ltb (length buf) size then none else some (f buf)

abbrev pub read_config : List ℕ → UsbDescriptor
read_config b = config (record {
  total_length = from_le_16 b 2;
  num_of_interfaces = byte b 4;
  config_value = byte b 5;
  config_string_index = byte b 6;
  attributes = byte b 7;
  max_power = byte b 8;
})

abbrev pub read_interface : List ℕ → UsbDescriptor
read_interface b = interface (record {
  interface_number = byte b 2;
  alt_setting = byte b 3;
  num_of_endpoints = byte b 4;
  interface_class = byte b 5;
  interface_subclass = byte b 6;
  interface_protocol = byte b 7;
  interface_index = byte b 8;
})

abbrev pub read_endpoint : List ℕ → UsbDescriptor
read_endpoint b = endpoint (record {
  endpoint_address = byte b 2;
  ep_attributes = byte b 3;
  max_packet_size = from_le_16 b 4;
  interval = byte b 6;
})

-- The `match` on the type: 2, 4 and 5 are `Config`, `Interface` and `Endpoint`.
pub describe : List ℕ → Option UsbDescriptor
describe buf =
    let desc_type = byte buf 1 in
    if desc_type == 2
    then copy_from_slice 9 read_config buf
    else if desc_type == 4
    then copy_from_slice 9 read_interface buf
    else if desc_type == 5
    then copy_from_slice 7 read_endpoint buf
    else some (unknown (byte buf 0) desc_type)

-- `next`: the item and the new index; `buf[1]` panics when one byte is left.
pub next : List ℕ → ℕ → Result (Option UsbDescriptor × ℕ)
next buf index =
    if leb (length buf) index
    then ok (none, index)
    else if leb (length buf) (index + 1)
    then panic "index out of bounds"
    else ok (elim (describe (drop index buf)) [
      | none ↦ (none, index)
      | some d ↦ (some d, index + byte (drop index buf) 0)
    ])

-- `iter.collect()`: `none` when the fuel ends before the iterator does.
pub collect : (fuel : ℕ) → List ℕ → ℕ → Result (Option (List UsbDescriptor))
collect zero buf index = ok none
collect (suc fuel) buf index = next buf index >>= λ (item, index'). elim item [
  | none ↦ ok (some [])
  | some d ↦
      collect fuel buf index' >>= λ rest. ok (elim rest [ none ↦ none | some ds ↦ some (d ∷ ds) ])
]

-- The variables of the loop over the descriptors.
pub record Scan : Type 0 where
  pub bulk_in_ep : Option EndpointDescriptor
  pub bulk_out_ep : Option EndpointDescriptor
  pub last_config : Option ConfigDescriptor
  pub usb_interface : Option InterfaceDescriptor
  pub ep_desc_list : List EndpointDescriptor

abbrev pub start : Scan
start = record {
  bulk_in_ep = none;
  bulk_out_ep = none;
  last_config = none;
  usb_interface = none;
  ep_desc_list = [];
}

abbrev pub is_in : EndpointDescriptor → Bool
is_in ep = not (bit_and ep.endpoint_address 0x80 == 0)

abbrev pub is_bulk : EndpointDescriptor → Bool
is_bulk ep = bit_and ep.ep_attributes 3 == 2

abbrev pub see_endpoint : Scan → EndpointDescriptor → Scan
see_endpoint s ep =
    let s = record s { ep_desc_list = s.ep_desc_list ++ (ep ∷ []) } in
    if not (is_bulk ep)
    then s
    else if is_in ep
    then record s { bulk_in_ep = some ep }
    else record s { bulk_out_ep = some ep }

-- A configuration: the loop stops behind an interface, and goes on otherwise.
abbrev pub see_config : Option InterfaceDescriptor → (stops goes_on : Scan) → Scan
see_config none stops goes_on = goes_on
see_config (some i) stops goes_on = stops

pub scan : List UsbDescriptor → Scan → Scan
scan [] s = s
scan (config c ∷ ds) s =
    see_config s.usb_interface s (scan ds (record s { last_config = some c; ep_desc_list = [] }))
scan (interface i ∷ ds) s = scan ds (record s { usb_interface = some i })
scan (endpoint ep ∷ ds) s = scan ds (see_endpoint s ep)
scan (unknown l t ∷ ds) s = scan ds s

-- What the function works with behind the loop.
pub record BulkEndpoints : Type 0 where
  pub config_desc : ConfigDescriptor
  pub bulk_in : EndpointDescriptor
  pub bulk_out : EndpointDescriptor
  pub bulk_in_dci : ℕ
  pub bulk_out_dci : ℕ

pub pick : Scan → Result BulkEndpoints
pick s = do
  c ← ok_or s.last_config "Config descriptor not found"
  _ ← ok_or s.usb_interface "Interface descriptor not found"
  i ← ok_or s.bulk_in_ep "Bulk IN endpoint not found"
  o ← ok_or s.bulk_out_ep "Bulk OUT endpoint not found"
  out_dci ←
      (if is_in o
        then err "OUT endpoint has IN direction bit set"
        else ok (bit_and o.endpoint_address 0xf * 2))
  in_dci ←
      (if is_in i
        then ok (bit_and i.endpoint_address 0xf * 2 + 1)
        else err "IN endpoint has OUT direction bit set")
  ok (record {
    config_desc = c;
    bulk_in = i;
    bulk_out = o;
    bulk_in_dci = in_dci;
    bulk_out_dci = out_dci;
  })

pub bulk_endpoints : List UsbDescriptor → Result BulkEndpoints
bulk_endpoints descriptors = pick (scan descriptors start)

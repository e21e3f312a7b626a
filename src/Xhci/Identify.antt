-- ===== src/Xhci/Identify.antt =====
-- What `PciXhciDriver::run` of src/xhci.rs asks a device that has an address: its descriptor, its strings
-- and its configuration.
pub mod Served
pub mod Reads
pub mod Whole
mod Examples
use mushix.Prelude.{
  ℕ, ◌+◌, ◌*◌, ◌^◌, List, [], ◌∷◌, drop, get_or, Option, none, some, ◌==◌, if◌then◌else◌, Result,
  ok, err, panic,
}
use mushix.Bytes.{from_le_16}
use mushix.Xhci.Descriptor.{UsbDescriptor, collect}
use mushix.Xhci.Control.{
  Xhc, Endpoint, M, lift, then_in, ◌>>=◌, request_descriptor, device, config, string,
}

pub record UsbDeviceDescriptor : Type 0 where
  pub desc_length : ℕ
  pub desc_type : ℕ
  pub version : ℕ
  pub device_class : ℕ
  pub device_subclass : ℕ
  pub device_protocol : ℕ
  pub max_packet_size : ℕ
  pub vendor_id : ℕ
  pub product_id : ℕ
  pub device_version : ℕ
  pub manufacturer_index : ℕ
  pub product_index : ℕ
  pub serial_idx : ℕ
  pub num_of_config : ℕ

-- The packed structure in its eighteen bytes.
abbrev pub read_device : List ℕ → UsbDeviceDescriptor
read_device b = record {
  desc_length = get_or b 0 0;
  desc_type = get_or b 1 0;
  version = from_le_16 b 2;
  device_class = get_or b 4 0;
  device_subclass = get_or b 5 0;
  device_protocol = get_or b 6 0;
  max_packet_size = get_or b 7 0;
  vendor_id = from_le_16 b 8;
  product_id = from_le_16 b 10;
  device_version = from_le_16 b 12;
  manufacturer_index = get_or b 14 0;
  product_index = get_or b 15 0;
  serial_idx = get_or b 16 0;
  num_of_config = get_or b 17 0;
}

-- `buf` is the address of the buffer that a request allocates.
pub request_device_descriptor : Xhc → (slot buf : ℕ) → M Endpoint UsbDeviceDescriptor
request_device_descriptor xhc slot buf = do
  bytes ← request_descriptor xhc slot device 0 0 buf 18
  lift (ok (read_device bytes))

-- `replace('\0', "")`
abbrev pub without_zeroes : List ℕ → List ℕ
without_zeroes [] = []
without_zeroes (b ∷ bs) = if b == 0 then without_zeroes bs else b ∷ without_zeroes bs

-- The string in bytes of UTF-8, before malformed ones are replaced.
pub request_string_descriptor : Xhc → (slot buf lang_id index : ℕ) → M Endpoint (List ℕ)
request_string_descriptor xhc slot buf lang_id index = do
  bytes ← request_descriptor xhc slot string index lang_id buf 128
  lift (ok (without_zeroes (drop 2 bytes)))

-- A buffer as numbers of sixteen bits.
abbrev pub words : List ℕ → List ℕ
words [] = []
words (b ∷ []) = []
words (b ∷ c ∷ bs) = (b + c * 2 ^ 8) ∷ words bs

-- The buffer has eight numbers, and so sixteen bytes.
pub request_string_descriptor_zero : Xhc → (slot buf : ℕ) → M Endpoint (List ℕ)
request_string_descriptor_zero xhc slot buf = do
  bytes ← request_descriptor xhc slot string 0 0 buf 16
  lift (ok (words bytes))

-- `none`: the fuel of the iterator ran out.
pub request_config_descriptor_and_rest :
    (fuel : ℕ) → Xhc → (slot config_buf buf : ℕ) → M Endpoint (Option (List UsbDescriptor))
request_config_descriptor_and_rest fuel xhc slot config_buf buf = do
  config_descriptor ← request_descriptor xhc slot config 0 0 config_buf 9
  bytes ← request_descriptor xhc slot config 0 0 buf (from_le_16 config_descriptor 2)
  lift (collect fuel bytes 0)

-- `if index != 0 { Some(request_string_descriptor(..).await?) } else { None }`
pub optional_string : Xhc → (slot buf lang_id index : ℕ) → M Endpoint (Option (List ℕ))
optional_string xhc slot buf lang_id index =
    if index == 0
    then lift (ok none)
    else request_string_descriptor xhc slot buf lang_id index >>= λ text. lift (ok (some text))

-- The body of an `if let Ok(..)` or of a test for an error, which goes on with `none` on an error.
abbrev pub on_ok : {S A B : Type 0} → Result A × S → (A → M S (Option B)) → Result (Option B) × S
on_ok (ok a, e) f = f a e
on_ok (err m, e) f = (ok none, e)
on_ok (panic m, e) f = (panic m, e)

-- The addresses of the buffers that the requests allocate.
pub record Buffers : Type 0 where
  pub device_buf : ℕ
  pub zero_buf : ℕ
  pub vendor_buf : ℕ
  pub product_buf : ℕ
  pub serial_buf : ℕ
  pub config_buf : ℕ
  pub rest_buf : ℕ

-- What is printed of a device, and its descriptors.
pub record Identity : Type 0 where
  pub device_descriptor : UsbDeviceDescriptor
  pub vendor : Option (List ℕ)
  pub product : Option (List ℕ)
  pub serial : Option (List ℕ)
  pub descriptors : Option (List UsbDescriptor)

-- The body behind the two requests whose errors only skip the device; any other error ends `run`.
identify_with :
    (fuel : ℕ)
    → Xhc
    → Buffers
    → (slot lang_id : ℕ) → UsbDeviceDescriptor
    → M Endpoint (Option Identity)
identify_with fuel xhc bufs slot lang_id d = do
  vendor ← optional_string xhc slot bufs.vendor_buf lang_id d.manufacturer_index
  product ← optional_string xhc slot bufs.product_buf lang_id d.product_index
  serial ← optional_string xhc slot bufs.serial_buf lang_id d.serial_idx
  descriptors ← request_config_descriptor_and_rest fuel xhc slot bufs.config_buf bufs.rest_buf
  lift (
      ok (
        some (record {
          device_descriptor = d;
          vendor = vendor;
          product = product;
          serial = serial;
          descriptors = descriptors;
        })))

-- The body of the loop over the ports, from the device's descriptor up to the loop over its
-- descriptors; `none` for a device that is skipped.
pub identify : (fuel : ℕ) → Xhc → Buffers → (slot : ℕ) → M Endpoint (Option Identity)
identify fuel xhc bufs slot e = on_ok (request_device_descriptor xhc slot bufs.device_buf e) λ d e.
    on_ok (request_string_descriptor_zero xhc slot bufs.zero_buf e)
      λ zero_words e. identify_with fuel xhc bufs slot (get_or zero_words 1 0) d e

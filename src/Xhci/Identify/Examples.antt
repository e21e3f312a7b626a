-- ===== src/Xhci/Identify/Examples.antt =====
-- A mass-storage device that answers requests, and the requests at concrete inputs.
use mushix.Prelude.{
  ℕ, ◌+◌, ◌*◌, ◌/◌, ◌%◌, ◌^◌, ◌<◌, ◌≡◌, refl, arith, List, [], ◌∷◌, ◌++◌, take, All, ok, some, ◌==◌,
  if◌then◌else◌, Bool-cases, inl, inr,
}
use mushix.Xhci.Trb.{Trb, zero_trb}
use mushix.Xhci.Trb.Sample.{transfer_success, transfer_success-ok}
use mushix.Xhci.Trb.Stages.{setup_stage_trb}
use mushix.Xhci.Command.Sequence.{started, started-IsCommandRing}
use mushix.Xhci.Command.Push.{IsCommandRing}
use mushix.Xhci.Descriptor.Iterate.{concat}
use mushix.Xhci.Descriptor.Sample.{device, device-IsDescriptor}
use mushix.Xhci.Control.{Sent, Device, Xhc, Endpoint, UsbDescriptorType, desc_number}
use mushix.Xhci.Identify.{Buffers, identify}
use mushix.Xhci.Identify.Served.{IsServed}
use mushix.Xhci.Identify.Reads.{Describes, string_bytes}
use mushix.Xhci.Identify.Whole.{identity_of, identify_lem}

abbrev device_bytes : List ℕ
device_bytes =
    18 ∷ 1 ∷ 0 ∷ 2 ∷ 0 ∷ 0 ∷ 0 ∷ 64 ∷ 0x12 ∷ 0x34 ∷ 0x56 ∷ 0x78 ∷ 0 ∷ 1 ∷ 1 ∷ 2 ∷ 0 ∷ 1 ∷ []

-- "Acme" and "Disk".
abbrev text : ℕ → List ℕ
text i = if i == 1 then b'A' ∷ b'c' ∷ b'm' ∷ b'e' ∷ [] else b'D' ∷ b'i' ∷ b's' ∷ b'k' ∷ []

abbrev content : ℕ → ℕ → ℕ → List ℕ
content t i lang =
    if t == 1
    then device_bytes
    else if t == 2
    then concat device
    else if i == 0
    then 4 ∷ 3 ∷ 9 ∷ 4 ∷ []
    else string_bytes (text i)

-- The third block from the end, with three blocks in front.
abbrev third_last : Trb → Trb → Trb → List Sent → Trb
third_last a b c [] = a
third_last a b c ((ptr, t) ∷ sent) = third_last b c t sent

-- A device that decodes the packet of the last request.
abbrev reader : Device
reader sent ptr =
    let p = (third_last zero_trb zero_trb zero_trb sent).data_ in
    record {
      event = transfer_success;
      incoming =
          take (p / 2 ^ 48)
            (content (p / 2 ^ 24 % 2 ^ 8) (p / 2 ^ 16 % 2 ^ 8) (p / 2 ^ 32 % 2 ^ 16));
    }

abbrev xhc : Xhc
xhc = record { doorbell_regs = 0x2000 ∷ 0x2004 ∷ []; usbsts = 0; device = reader }

third_last-append :
    (a b c : Trb) (sent : List Sent) (p q r : ℕ) (x y z : Trb)
    → third_last a b c (sent ++ ((p, x) ∷ (q, y) ∷ (r, z) ∷ [])) ≡ x
third_last-append a b c [] p q r x y z = refl
third_last-append a b c ((ptr, t) ∷ sent) p q r x y z = third_last-append b c t sent p q r x y z

desc_number_small : (t : UsbDescriptorType) → desc_number t < 2 ^ 8
desc_number_small t = ground arith

brought :
    (n i lang len : ℕ)
    → n < 2 ^ 8
    → i < 2 ^ 8
    → lang < 2 ^ 16
    → len < 2 ^ 16
    → let p = 1664 + (n * 256 + i) * 65536 + lang * 4294967296 + len % 65536 * 281474976710656 in
      take (p / 2 ^ 48) (content (p / 2 ^ 24 % 2 ^ 8) (p / 2 ^ 16 % 2 ^ 8) (p / 2 ^ 32 % 2 ^ 16))
      ≡ take len (content n i lang)
brought n i lang len hn hi hl hs =
    let p = 1664 + (n * 256 + i) * 65536 + lang * 4294967296 + len % 65536 * 281474976710656 in
    let size : p / 2 ^ 48 ≡ len = omega arith in
    let type_ : p / 2 ^ 24 % 2 ^ 8 ≡ n = omega arith in
    let index : p / 2 ^ 16 % 2 ^ 8 ≡ i = omega arith in
    let language : p / 2 ^ 32 % 2 ^ 16 ≡ lang = omega arith in
    λ k. take (size k) (content (type_ k) (index k) (language k))

reader-IsServed : IsServed xhc 1 content
unfolding setup_stage_trb
reader-IsServed = record {
  bell = omega arith;
  succeeds = λ e t i lang buf len hi hl hn. transfer_success-ok;
  brings = λ e t i lang buf len hi hl hn.
      rw (third_last-append zero_trb zero_trb zero_trb e.sent _ _ _ _ _ _)
        (brought (desc_number t) i lang len (desc_number_small t) hi hl hn);
}

text-plain : (i : ℕ) → All (λ c. (0 < c) × (c < 128)) (text i)
text-plain i = elim (Bool-cases (i == 1)) [
  | inl first ↦ rw first (omega arith)
  | inr other ↦ rw other (omega arith)
]

reader-Describes : Describes content device_bytes text 9 4 device
reader-Describes = record {
  device_bytes = refl;
  device_size = refl;
  vendor = omega arith;
  product = omega arith;
  serial = omega arith;
  languages = refl;
  language = omega arith;
  strings = λ i ne hi. ground arith;
  plain = text-plain;
  short = λ i. ground arith;
  config_bytes = refl;
  whole = device-IsDescriptor;
  total = refl;
  total_size = omega arith;
}

abbrev bufs : Buffers
bufs = record {
  device_buf = 0x5000;
  zero_buf = 0x5100;
  vendor_buf = 0x5200;
  product_buf = 0x5300;
  serial_buf = 0x5400;
  config_buf = 0x5500;
  rest_buf = 0x5600;
}

abbrev fresh : Endpoint
fresh = record { ring = started 0x1000; sent = [] }

identify_lem_example :
    (e' : Endpoint) × (identify 5 xhc bufs 1 fresh
      ≡ (ok (some (identity_of device_bytes text device)), e'))
    × IsCommandRing e'.ring
identify_lem_example =
    identify_lem reader-Describes xhc 1 reader-IsServed bufs 5 (omega arith) fresh
      (started-IsCommandRing 0x1000)

-- ===== src/Xhci/Control.antt =====
-- The control requests of `Controller` and `PciXhciDriver` in src/xhci.rs: what is pushed onto the ring of
-- endpoint 0, what is waited for, and what comes back.
pub mod Push
pub mod Requests
pub mod Chain
mod Examples
use mushix.Prelude.{
  ℕ, ◌+◌, ◌*◌, ◌%◌, ◌^◌, not, List, [], ◌∷◌, ◌++◌, drop, take, replicate, get_or, Option, ◌==◌,
  if◌then◌else◌, Result, ok, err, panic, bit_or,
}
use mushix.Bytes.{from_le_16}
use mushix.Xhci.Trb.{Trb, transfer_result_ok}
use mushix.Xhci.Trb.Stages.{
  setup_stage_trb, data_stage_in, status_stage_in, status_stage_out, req_type_dir_device_to_host,
  req_type_dir_host_to_device, req_type_type_class, req_type_to_interface, req_type_to_endpoint,
  req_clear_feature, req_get_descriptor, req_set_configuration,
}
use mushix.Xhci.Command.{CommandRing, push}
use mushix.Xhci.Regs.{notify_ep}
use mushix.Xhci.Descriptor.{UsbDescriptor, collect}

-- A block that was pushed, with the address of its slot.
abbrev pub Sent : Type 0
Sent = ℕ × Trb

-- The event for the block that is waited for, and the bytes that the device sends.
pub record Reaction : Type 0 where
  pub event : Trb
  pub incoming : List ℕ

-- What the controller and the device make of the blocks that were pushed so far, the oldest first,
-- when the driver waits for the block at an address. A future that is never woken has no reaction.
abbrev pub Device : Type 0
Device = List Sent → ℕ → Reaction

-- The parts of the controller that a request uses: the doorbells, and the status that it reads.
pub record Xhc : Type 0 where
  pub doorbell_regs : List ℕ
  pub usbsts : ℕ
  pub device : Device

-- The ring of an endpoint, with the blocks that were pushed onto it.
pub record Endpoint : Type 0 where
  pub ring : CommandRing
  pub sent : List Sent

-- Code with `&mut S`: an error leaves the state as it is then.
abbrev pub M : Type 0 → Type 0 → Type 0
M S A = S → Result A × S

abbrev pub lift : {S A : Type 0} → Result A → M S A
lift r e = (r, e)

abbrev pub then_in : {S A B : Type 0} → Result A × S → (A → M S B) → Result B × S
then_in (ok a, e) f = f a e
then_in (err m, e) f = (err m, e)
then_in (panic m, e) f = (panic m, e)

infixl 5 ◌>>=◌ ◌>>◌
abbrev pub ◌>>=◌ : {S A B : Type 0} → M S A → (A → M S B) → M S B
◌>>=◌ m f e = then_in (m e) f

abbrev pub ◌>>◌ : {S B : Type 0} → M S (Unit {0}) → M S B → M S B
m >> k = m >>= λ _. k

-- `ctrl_ep_ring.push(trb)?`
abbrev pushed : Trb → Endpoint → Result (ℕ × CommandRing) → Result ℕ × Endpoint
pushed t e (ok (ptr, ring)) = (ok ptr, record { ring = ring; sent = e.sent ++ ((ptr, t) ∷ []) })
pushed t e (err m) = (err m, e)
pushed t e (panic m) = (panic m, e)

pub push_trb : Trb → M Endpoint ℕ
push_trb t e = pushed t e (push e.ring t)

-- `xhc.notify_ep(slot, 1)?`
abbrev notify_slot : Xhc → ℕ → M Endpoint (Unit {0})
notify_slot xhc slot = lift (notify_ep xhc.doorbell_regs slot 1 xhc.usbsts) >>= λ _. lift (ok tt)

-- `EventFuture::new_for_trb(..).await?.transfer_result_ok()?`, with the bytes that came in.
abbrev wait_for : Xhc → ℕ → M Endpoint (List ℕ)
wait_for xhc ptr e =
    let r = xhc.device e.sent ptr in (lift (transfer_result_ok r.event) >> lift (ok r.incoming)) e

-- The last steps of a request: ring the doorbell and wait for the block at `ptr`.
abbrev pub finish : Xhc → (slot ptr : ℕ) → M Endpoint (List ℕ)
finish xhc slot ptr = notify_slot xhc slot >> wait_for xhc ptr

-- The requests without a data stage.
pub no_data : Xhc → ℕ → Trb → M Endpoint (Unit {0})
no_data xhc slot setup = do
  _ ← push_trb setup
  trb_ptr ← push_trb status_stage_in
  _ ← finish xhc slot trb_ptr
  lift (ok tt)

pub request_set_config : Xhc → (slot config_value : ℕ) → M Endpoint (Unit {0})
request_set_config xhc slot config_value =
    no_data xhc slot (setup_stage_trb 0 req_set_configuration config_value 0 0)

abbrev feature_endpoint_halt : ℕ
feature_endpoint_halt = 0

pub clear_endpoint_halt : Xhc → (slot endpoint_address : ℕ) → M Endpoint (Unit {0})
clear_endpoint_halt xhc slot endpoint_address = no_data xhc slot (
    setup_stage_trb (bit_or req_type_dir_host_to_device req_type_to_endpoint) req_clear_feature
      feature_endpoint_halt endpoint_address 0)

pub bulk_only_mass_storage_reset : Xhc → (slot : ℕ) → M Endpoint (Unit {0})
bulk_only_mass_storage_reset xhc slot = no_data xhc slot (
    setup_stage_trb
      (bit_or (bit_or req_type_dir_host_to_device req_type_type_class) req_type_to_interface) 0xff 0
      0 0)

pub data UsbDescriptorType : Type 0 where
  device config string interface endpoint : UsbDescriptorType

abbrev pub desc_number : UsbDescriptorType → ℕ
desc_number device = 1
desc_number config = 2
desc_number string = 3
desc_number interface = 4
desc_number endpoint = 5

-- A buffer of `len` zeroes behind the transfer into it.
abbrev pub received : ℕ → List ℕ → List ℕ
received len bytes = take len (bytes ++ replicate len 0)

-- The setup block of `request_descriptor`; the length is cast to sixteen bits.
abbrev pub get_descriptor : UsbDescriptorType → (desc_index lang_id len : ℕ) → Trb
get_descriptor desc_type desc_index lang_id len =
    setup_stage_trb req_type_dir_device_to_host req_get_descriptor
      (desc_number desc_type * 2 ^ 8 + desc_index) lang_id (len % 2 ^ 16)

-- `request_descriptor`, for a buffer of `len` bytes at `buf`: the buffer's bytes behind it.
pub request_descriptor :
    Xhc → (slot : ℕ) → UsbDescriptorType → (desc_index lang_id buf len : ℕ) → M Endpoint (List ℕ)
request_descriptor xhc slot desc_type desc_index lang_id buf len = do
  _ ← push_trb (get_descriptor desc_type desc_index lang_id len)
  trb_ptr_waiting ← push_trb (data_stage_in buf len)
  _ ← push_trb status_stage_out
  bytes ← finish xhc slot trb_ptr_waiting
  lift (ok (received len bytes))

-- ===== src/Xhci/Context/Laws.antt =====
-- The words that the context builders of src/xhci.rs put together.
use mushix.Prelude.{
  ℕ, ◌+◌, ◌-◌, ◌*◌, ◌/◌, ◌%◌, ◌^◌, ◌<◌, ◌≡◌, ◌∙◌, ap, refl, arith, bit_and, bit_or, ◌∷◌, replicate,
  ok, lt→ltb, >>=-split,
}
use mushix.Word.{shr, bit_not, u32}
use mushix.Word.Fields.{with_field, clear_field, mod-pow-lt}
use mushix.Word.Split.{bit_or-split, bit_or-zero, zero-bit_or}
use mushix.Word.Shift.{shl_lem}
use mushix.Volatile.{write_bits}
use mushix.Volatile.Laws.{write_bits-eq-with_field}
use mushix.Xhci.Context.{
  EndpointType, isoch_out, bulk_out, interrupt_out, control, isoch_in, bulk_in, interrupt_in,
  raw_ep_type, UsbMode, psi, set_field, EndpointContext, empty_ep, set_max_burst_size,
  set_ring_deque_pointer, set_max_packet_size, set_error_count, set_dequeue_cycle_state,
  set_ep_type, new_endpoint, new_control_endpoint, new_bulk_endpoint, set_port_speed,
  set_last_valid_dci, set_root_hub_port_number, add_context, InputContext, set_ep_ctx,
  address_device_context, root_context, with_port_speed, with_control_endpoint,
}

bit_or_field_right :
    (s k v q r : ℕ)
    → v < 2 ^ k
    → r < 2 ^ s
    → bit_or (q * 2 ^ k * 2 ^ s + r) (v * 2 ^ s) ≡ (q * 2 ^ k + v) * 2 ^ s + r
bit_or_field_right s k v q r hv hr = ground (
  arith,
  bit_or-split s (q * 2 ^ k) r v 0,
  bit_or-split k q 0 0 v,
  bit_or-zero r,
  bit_or-zero q,
  zero-bit_or v,
)

-- The two assignments with a mask of `k` bits replace the field.
pub set_field_lem :
    (s k t v x : ℕ)
    → s + (k + t) ≡ 32
    → s < 32
    → v < 2 ^ k
    → x < 2 ^ 32
    → (2 ^ k - 1) * 2 ^ s < 2 ^ 32
    → v * 2 ^ s < 2 ^ 32
    → set_field (2 ^ k - 1) s v x ≡ with_field s k v x
set_field_lem s k t v x e hs hv hx hm hvs =
    rw (shl_lem 32 (2 ^ k - 1) s hs hm, shl_lem 32 v s hs hvs, cleared)
      (bit_or_field_right s k v (x / 2 ^ s / 2 ^ k) (x % 2 ^ s) hv (mod-pow-lt x s))
  where
    cleared :
        bit_and x (bit_not 32 ((2 ^ k - 1) * 2 ^ s)) ≡ x / 2 ^ s / 2 ^ k * 2 ^ k * 2 ^ s + x % 2 ^ s
    cleared = rw e at (clear_field s k t x (rw e hx))

-- The endpoint context that both builders share.
abbrev pub endpoint : ℕ → ℕ → ℕ → EndpointContext
endpoint ty max_packet_size ring = record {
  data0 = 0;
  data1 = max_packet_size * 2 ^ 16 + ty * 2 ^ 3 + 3 * 2;
  tr_deque_ptr = ring / 16 * 16 + 1;
  average_trb_length = 0;
  max_esit_payload_low = 0;
}

raw_ep_type-lt : (t : EndpointType) → raw_ep_type t < 8
raw_ep_type-lt t = ground arith

-- The words before the packet size.
low_word :
    (t : EndpointType)
    → set_field 3 1 3 (set_field 7 3 (raw_ep_type t) 0) ≡ raw_ep_type t * 2 ^ 3 + 6
low_word isoch_out = refl
low_word bulk_out = refl
low_word interrupt_out = refl
low_word control = refl
low_word isoch_in = refl
low_word bulk_in = refl
low_word interrupt_in = refl

ep_word :
    (t : EndpointType) (mps : ℕ)
    → mps < 2 ^ 16
    → set_field 0xffff 16 mps (set_field 3 1 3 (set_field 7 3 (raw_ep_type t) 0))
      ≡ mps * 2 ^ 16 + raw_ep_type t * 2 ^ 3 + 6
ep_word t mps h = rw (low_word t) (
    set_field_lem 16 16 0 mps (raw_ep_type t * 2 ^ 3 + 6) refl (omega arith) h
      (omega (arith, raw_ep_type-lt t)) (omega arith) (omega arith)
    ∙ omega (arith, raw_ep_type-lt t))

cycle_word : write_bits 64 0 1 1 0 ≡ ok 1
unfolding write_bits
cycle_word = refl

pointer_word :
    (ring : ℕ) → ring < 2 ^ 64 → write_bits 64 4 60 (shr 64 ring 4) 1 ≡ ok (ring / 16 * 16 + 1)
pointer_word ring h =
    write_bits-eq-with_field 64 4 60 (ring / 16) 1 (omega arith) (omega arith) (omega arith)
      (omega arith)
    ∙ rw (lt→ltb (ring / 16) (2 ^ 60) (omega arith)) (ap ok (omega arith))

new_endpoint_lem :
    (t : EndpointType) (max_packet_size ring : ℕ)
    → max_packet_size < 2 ^ 16
    → ring < 2 ^ 64
    → new_endpoint t max_packet_size ring ≡ ok (endpoint (raw_ep_type t) max_packet_size ring)
unfolding set_ep_type set_dequeue_cycle_state set_error_count set_max_packet_size
    set_ring_deque_pointer
new_endpoint_lem t mps ring hm hr =
    rw
      (
        lt→ltb (raw_ep_type t) 8 (raw_ep_type-lt t),
        cycle_word,
        pointer_word ring hr,
        ep_word t mps hm,
      )
      refl

-- A control endpoint for a ring at a 64-bit address: type, error count 3 and packet size in their
-- fields, the ring's address to 16 bytes with the cycle bit set, and an average length of 8.
pub new_control_endpoint_lem :
    (max_packet_size ring : ℕ)
    → max_packet_size < 2 ^ 16
    → ring < 2 ^ 64
    → new_control_endpoint max_packet_size ring
      ≡ ok (record (endpoint 4 max_packet_size ring) { average_trb_length = 8 })
unfolding new_control_endpoint
new_control_endpoint_lem mps ring hm hr = rw (new_endpoint_lem control mps ring hm hr) refl

burst_word :
    (t : EndpointType) (mps : ℕ)
    → mps < 2 ^ 16
    → set_field 15 8 0 (endpoint (raw_ep_type t) mps 0).data1
      ≡ (endpoint (raw_ep_type t) mps 0).data1
burst_word t mps h =
    set_field_lem 8 4 20 0 (endpoint (raw_ep_type t) mps 0).data1 refl (omega arith) (omega arith)
      (omega (arith, raw_ep_type-lt t)) (omega arith) (omega arith)
    ∙ omega (arith, raw_ep_type-lt t)

-- A bulk endpoint likewise, with the average length the packet size and no bursts.
pub new_bulk_endpoint_lem :
    (t : EndpointType) (max_packet_size ring : ℕ)
    → max_packet_size < 2 ^ 16
    → ring < 2 ^ 64
    → new_bulk_endpoint max_packet_size ring t
      ≡ ok (record (endpoint (raw_ep_type t) max_packet_size ring) {
        average_trb_length = max_packet_size;
      })
unfolding new_bulk_endpoint set_max_burst_size
new_bulk_endpoint_lem t mps ring hm hr =
    rw (new_endpoint_lem t mps ring hm hr, burst_word t mps hm) refl

-- What the context of `address_device` holds.
abbrev pub addressed : ℕ → UsbMode → ℕ → ℕ → InputContext
addressed port speed max_packet_size ring = record {
  input_ctrl_ctx = record { drop_context_bitmap = 0; add_context_bitmap = 3 };
  device_ctx = record {
    slot_ctx = (psi speed * 2 ^ 20 + 2 ^ 27) ∷ (port * 2 ^ 16) ∷ replicate 6 0;
    ep_ctx =
        record (endpoint 4 max_packet_size ring) { average_trb_length = 8 } ∷ replicate 30 empty_ep;
  };
}

-- For a port from 1 to 255, a speed below 16, a 16-bit packet size and a ring at a 64-bit address,
-- the input context of `address_device` adds the slot and the control endpoint, names the port,
-- the speed and one valid endpoint, and holds the control endpoint.
pub address_device_context_lem :
    (port : ℕ) (speed : UsbMode) (max_packet_size ring : ℕ)
    → 0 < port
    → port < 256
    → psi speed < 16
    → max_packet_size < 2 ^ 16
    → ring < 2 ^ 64
    → address_device_context port speed max_packet_size ring
      ≡ ok (addressed port speed max_packet_size ring)
unfolding address_device_context add_context set_root_hub_port_number set_last_valid_dci
    set_port_speed set_ep_ctx
address_device_context_lem port speed mps ring hp hp' hs hm hr =
    rw
      (
        lt→ltb 0 port hp,
        lt→ltb port 256 hp',
        lt→ltb (psi speed) 16 hs,
        new_control_endpoint_lem mps ring hm hr,
        port_word,
        speed_word,
      )
      refl
  where
    port_word : set_field 0xff 16 (u32 port) 0 ≡ port * 2 ^ 16
    port_word =
        ap (λ p. set_field 0xff 16 p 0) (omega arith)
        ∙ set_field_lem 16 8 8 port 0 refl (omega arith) hp' (omega arith) (omega arith)
            (omega arith)
        ∙ omega arith

    speed_word : set_field 0xf 20 (psi speed) (2 ^ 27) ≡ psi speed * 2 ^ 20 + 2 ^ 27
    speed_word =
        set_field_lem 20 4 8 (psi speed) (2 ^ 27) refl (omega arith) hs (omega arith) (omega arith)
          (omega arith)
        ∙ omega arith

-- The context step by step.
pub address_device_steps :
    (port : ℕ) (speed : UsbMode) (max_packet_size ring : ℕ)
    → 0 < port
    → port < 256
    → psi speed < 16
    → max_packet_size < 2 ^ 16
    → ring < 2 ^ 64
    → (ctx1 ctx2 : InputContext) × (root_context port ≡ ok ctx1)
      × (with_port_speed ctx1 speed ≡ ok ctx2)
      × (with_control_endpoint ctx2 max_packet_size ring
          ≡ ok (addressed port speed max_packet_size ring))
unfolding address_device_context
address_device_steps port speed mps ring hp hp' hs hm hr =
    let (ctx1, first, more) =
      >>=-split (root_context port) _
        (address_device_context_lem port speed mps ring hp hp' hs hm hr) in
    let (ctx2, second, third) = >>=-split (with_port_speed ctx1 speed) _ more in
    (ctx1, ctx2, first, second, third)

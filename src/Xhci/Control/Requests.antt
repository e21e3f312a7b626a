-- ===== src/Xhci/Control/Requests.antt =====
-- The control requests as a whole.
use mushix.Prelude.{ℕ, ◌+◌, ◌*◌, ◌^◌, arith, ◌≡◌, ap, ◌∙◌, List, [], ◌∷◌, ◌++◌, ok, ◌>>=◌}
use mushix.Volatile
use mushix.Xhci.Trb.{Trb, trb_type}
use mushix.Xhci.Trb.Stages.{
  setup_stage_trb, transfer_type, data_stage_in, status_stage_in, status_stage_out,
}
use mushix.Xhci.Command.{CommandRing}
use mushix.Xhci.Command.Push.{IsCommandRing, IsCommand}
use mushix.Xhci.Command.Ahead.{Ahead, slot_ahead}
use mushix.Xhci.Control.{
  Sent, Xhc, Endpoint, UsbDescriptorType, then_in, lift, M, no_data, get_descriptor, received,
  request_descriptor, finish, request_set_config, clear_endpoint_halt, bulk_only_mass_storage_reset,
}
use mushix.Xhci.Control.Push.{
  setup_stage_trb-IsCommand, data_stage_in-IsCommand, status_stage_in-IsCommand,
  status_stage_out-IsCommand, block_ahead, Reached-start, push_trb_lem, then_in-lift, outcome,
  finish_lem,
}

-- What the ring of endpoint 0 was sent, by a request without data and by one that reads.
abbrev pub no_data_sent : Endpoint → Trb → List Sent
no_data_sent e setup =
    e.sent ++ (block_ahead e.ring 0 setup ∷ block_ahead e.ring 1 status_stage_in ∷ [])

abbrev pub descriptor_sent :
    Endpoint → UsbDescriptorType → (desc_index lang_id buf len : ℕ) → List Sent
descriptor_sent e desc_type desc_index lang_id buf len =
    e.sent
    ++ (block_ahead e.ring 0 (get_descriptor desc_type desc_index lang_id len)
        ∷ block_ahead e.ring 1 (data_stage_in buf len)
        ∷ block_ahead e.ring 2 status_stage_out
        ∷ [])

-- The end of a request.
finish_then :
    {B : Type 0} (xhc : Xhc) (slot ptr : ℕ) (e : Endpoint) (g : List ℕ → B) {sent : List Sent}
    → e.sent ≡ sent
    → then_in (finish xhc slot ptr e) (λ bytes. lift (ok (g bytes)))
      ≡ (outcome xhc slot sent ptr >>= λ bytes. ok (g bytes), record { ring = e.ring; sent = sent })
finish_then xhc slot ptr e g p = rw (finish_lem xhc slot ptr e) (
    then_in-lift (outcome xhc slot e.sent ptr) e g
    ∙ ap
        (λ (s : List Sent).
          (outcome xhc slot s ptr >>= λ bytes. ok (g bytes), record { ring = e.ring; sent = s }))
        p)

-- A setup block without a data stage, whose packet has these fields and the length 0.
abbrev pub packet : (request_type request value index : ℕ) → Trb
packet request_type request value index = record {
  data_ = request_type + request * 2 ^ 8 + value * 2 ^ 16 + index * 2 ^ 32;
  option = 8;
  control = 0x840;
}

packet-IsCommand :
    (request_type request value index : ℕ) → IsCommand (packet request_type request value index)
unfolding trb_type Volatile.read_bits
packet-IsCommand request_type request value index = record {
  word = omega arith;
  plain = omega arith;
}

setup-packet :
    (request_type request value index : ℕ)
    → setup_stage_trb request_type request value index 0 ≡ packet request_type request value index
unfolding setup_stage_trb transfer_type
setup-packet request_type request value index = ground arith

module _ (xhc : Xhc) (slot : ℕ) (e : Endpoint) (v : IsCommandRing e.ring) where
  -- A request without data pushes its setup block and an IN status block, and succeeds exactly
  -- when the event of the second does.
  pub no_data_lem :
      (setup : Trb)
      → IsCommand setup
      → (ring : CommandRing) × (no_data xhc slot setup e ≡ (
        outcome xhc slot (no_data_sent e setup) (slot_ahead e.ring 1) >>= λ _. ok tt,
        record { ring = ring; sent = no_data_sent e setup },
      ))
        × Ahead e.ring ring 2
  unfolding no_data
  no_data_lem setup s =
      let (e1, first, at1) = push_trb_lem e e [] 0 setup (Reached-start e v) s in
      let (e2, second, at2) = push_trb_lem e e1 _ 1 status_stage_in at1 status_stage_in-IsCommand in
      (
        e2.ring,
        rw (first, second)
            (finish_then xhc slot (slot_ahead e.ring 1) e2 (λ (bytes : List ℕ). tt) at2.sent),
        at2.ahead,
      )

  -- From a well-formed ring of endpoint 0, GET_DESCRIPTOR always pushes its three blocks, setup,
  -- data and status, to the next three slots. It fails when the slot has no doorbell. Otherwise
  -- the event of the data block decides: an error code is the error of the request, and on
  -- success the buffer holds the bytes that came in, cut or filled with zeroes to its length. In
  -- each case the ring is well formed and three blocks further.
  pub request_descriptor_lem :
      (desc_type : UsbDescriptorType) (desc_index lang_id buf len : ℕ)
      → (ring : CommandRing) × (request_descriptor xhc slot desc_type desc_index lang_id buf len e
          ≡ (
            outcome xhc slot
                  (descriptor_sent e desc_type desc_index lang_id buf len)
                  (slot_ahead e.ring 1)
                >>= λ bytes. ok (received len bytes),
            record { ring = ring; sent = descriptor_sent e desc_type desc_index lang_id buf len },
          ))
        × Ahead e.ring ring 3
  unfolding request_descriptor
  request_descriptor_lem desc_type desc_index lang_id buf len =
      let (e1, first, at1) =
        push_trb_lem e e [] 0 (get_descriptor desc_type desc_index lang_id len) (Reached-start e v)
          (setup_stage_trb-IsCommand _ _ _ _ _) in
      let (e2, second, at2) =
        push_trb_lem e e1 _ 1 (data_stage_in buf len) at1 (data_stage_in-IsCommand buf len) in
      let (e3, third, at3) =
        push_trb_lem e e2 _ 2 status_stage_out at2 status_stage_out-IsCommand in
      (
        e3.ring,
        rw (first, second, third)
            (finish_then xhc slot (slot_ahead e.ring 1) e3 (received len) at3.sent),
        at3.ahead,
      )

  -- A request without data that sends the setup block.
  abbrev pub Requests : M Endpoint (Unit {0}) → Trb → Type 0
  Requests run setup =
      (ring : CommandRing) × (run e ≡ (
        outcome xhc slot (no_data_sent e setup) (slot_ahead e.ring 1) >>= λ _. ok tt,
        record { ring = ring; sent = no_data_sent e setup },
      ))
      × Ahead e.ring ring 2

  -- From a well-formed ring of endpoint 0 the three requests without data send the packets of the
  -- USB specification: SET_CONFIGURATION (0, 9) with the value, CLEAR_FEATURE of the halt of an
  -- endpoint (2, 1) with its address, and the reset of bulk-only storage (0x21, 0xff); each
  -- packet is followed by an IN status block. A request fails when the slot has no doorbell, and
  -- otherwise succeeds exactly when the event of the status block is a success; the ring is well
  -- formed and two blocks further in each case.
  pub no_data-Requests :
      (config_value endpoint_address : ℕ)
      → Requests (request_set_config xhc slot config_value) (packet 0 9 config_value 0)
        × Requests (clear_endpoint_halt xhc slot endpoint_address) (packet 2 1 0 endpoint_address)
        × Requests (bulk_only_mass_storage_reset xhc slot) (packet 0x21 0xff 0 0)
  unfolding request_set_config clear_endpoint_halt bulk_only_mass_storage_reset
  no_data-Requests config_value endpoint_address = (
    rw (setup-packet 0 9 config_value 0)
        (no_data_lem (packet 0 9 config_value 0) (packet-IsCommand 0 9 config_value 0)),
    rw (setup-packet 2 1 0 endpoint_address)
        (no_data_lem (packet 2 1 0 endpoint_address) (packet-IsCommand 2 1 0 endpoint_address)),
    rw (setup-packet 0x21 0xff 0 0)
        (no_data_lem (packet 0x21 0xff 0 0) (packet-IsCommand 0x21 0xff 0 0)),
  )

-- ===== src/Xhci/Trb/Laws.antt =====
-- The bit fields of a block: none of the `unwrap`s panics, and each field reads back.
use mushix.Prelude.{
  ℕ, ◌+◌, ◌*◌, ◌/◌, ◌%◌, ◌^◌, ap, ◌≤◌, ◌<◌, ◌≡◌, ◌∙◌, inr, sym, refl, arith, ok, Bool, true, false,
  not, ◌==◌, to_bit,
}
use mushix.Word.Fields.{with_field, field-with_field_self, field-with_field_ne}
use mushix.Volatile.{write_bits, read_bits}
use mushix.Volatile.Laws.{write_bits-eq-with_field, read_bits-eq-field}
use mushix.Xhci.Trb.{
  Trb, TrbType, number, zero_trb, set_trb_type, set_cycle_state, set_toggle_cycle, trb_type,
  cycle_state, trb_link, slot_id, set_slot_id, cmd_with_context, cmd_enable_slot,
  cmd_address_device, cmd_configure_endpoint, enable_slot_command, address_device_command,
  configure_endpoint_command,
}

abbrev pub IsTrb : Trb → Type 0
IsTrb t = t.control < 2 ^ 32

write_control :
    (s k v x : ℕ)
    → s < 32
    → k < 32
    → s + k ≤ 32
    → x < 2 ^ 32
    → v < 2 ^ k
    → write_bits 32 s k v x ≡ ok (with_field s k v x)
write_control s k v x hs hk hw hx hv = ground (arith, write_bits-eq-with_field 32 s k v x)

to_bit-lt : (b : Bool) → to_bit b < 2
to_bit-lt true = omega arith
to_bit-lt false = omega arith

number-lt : (t : TrbType) → number t < 64
number-lt t = ground arith

-- The block with its cycle bit replaced.
abbrev pub with_cycle : Bool → Trb → Trb
with_cycle c t = record t { control = with_field 0 1 (to_bit c) t.control }

pub set_cycle_state_lem : (t : Trb) (c : Bool) → IsTrb t → set_cycle_state t c ≡ ok (with_cycle c t)
unfolding set_cycle_state
set_cycle_state_lem t c h = rw (
    write_control 0 1 (to_bit c) t.control (omega arith) (omega arith) (omega arith) h
      (to_bit-lt c))

pub with_cycle-IsTrb : (t : Trb) (c : Bool) → IsTrb t → IsTrb (with_cycle c t)
with_cycle-IsTrb t c h = omega (arith, to_bit-lt c)

pub cycle_state-with_cycle : (t : Trb) (c : Bool) → cycle_state (with_cycle c t) ≡ c
unfolding cycle_state
cycle_state-with_cycle t c =
    rw
      (
        read_bits-eq-field 32 0 1 (with_field 0 1 (to_bit c) t.control) (omega arith) (omega arith),
        field-with_field_self 0 1 (to_bit c) t.control (to_bit-lt c),
      )
      (both c)
  where
    both : (c : Bool) → not (to_bit c == 0) ≡ c
    both true = refl
    both false = refl

pub trb_type-with_cycle : (t : Trb) (c : Bool) → trb_type (with_cycle c t) ≡ trb_type t
unfolding trb_type
trb_type-with_cycle t c =
    read_bits-eq-field 32 10 6 (with_field 0 1 (to_bit c) t.control) (omega arith) (omega arith)
    ∙ field-with_field_ne 0 1 (to_bit c) t.control 10 6 (to_bit-lt c) (inr (omega arith))
    ∙ sym (read_bits-eq-field 32 10 6 t.control (omega arith) (omega arith))

pub set_trb_type_lem :
    (t : Trb) (ty : TrbType)
    → IsTrb t
    → set_trb_type t ty ≡ ok (record t { control = with_field 10 6 (number ty) t.control })
unfolding set_trb_type
set_trb_type_lem t ty h = rw (
    write_control 10 6 (number ty) t.control (omega arith) (omega arith) (omega arith) h
      (number-lt ty))

-- The link block as a number: type 6, toggle bit 1, cycle bit 0.
abbrev pub link_trb : ℕ → Trb
link_trb addr = record { data_ = addr; option = 0; control = 0x1802 }

pub trb_link_lem : (addr : ℕ) → trb_link addr ≡ ok (link_trb addr)
unfolding trb_link set_trb_type set_toggle_cycle write_bits
trb_link_lem addr = refl

pub trb_type-link_trb :
    (addr : ℕ) → (trb_type (link_trb addr) ≡ 6) × (cycle_state (link_trb addr) ≡ false)
unfolding trb_type cycle_state read_bits
trb_type-link_trb addr = (refl, refl)

pub zero_trb_lem : (trb_type zero_trb ≡ 0) × (cycle_state zero_trb ≡ false)
unfolding trb_type cycle_state read_bits
zero_trb_lem = (refl, refl)

-- The commands as numbers: the type from bit 10, the slot from bit 24.
abbrev pub command_trb : (t : TrbType) → (input_context slot : ℕ) → Trb
command_trb t input_context slot = record {
  data_ = input_context;
  option = 0;
  control = number t * 2 ^ 10 + slot * 2 ^ 24;
}

cmd_with_context_lem :
    (t : TrbType) (input_context slot : ℕ)
    → slot < 2 ^ 8
    → cmd_with_context t input_context slot ≡ ok (command_trb t input_context slot)
unfolding cmd_with_context set_slot_id
cmd_with_context_lem t input_context slot h =
    rw
      (
        set_trb_type_lem zero_trb t (omega arith),
        write_control 24 8 slot (with_field 10 6 (number t) 0) (omega arith) (omega arith)
            (omega arith) (omega (arith, number-lt t)) h,
      )
      (ap (λ c. ok (record { data_ = input_context; option = 0; control = c }))
        (omega (arith, number-lt t)))

pub cmd_address_device_lem :
    (input_context slot : ℕ)
    → slot < 2 ^ 8
    → cmd_address_device input_context slot
      ≡ ok (command_trb address_device_command input_context slot)
unfolding cmd_address_device
cmd_address_device_lem = cmd_with_context_lem address_device_command

pub cmd_configure_endpoint_lem :
    (input_context slot : ℕ)
    → slot < 2 ^ 8
    → cmd_configure_endpoint input_context slot
      ≡ ok (command_trb configure_endpoint_command input_context slot)
unfolding cmd_configure_endpoint
cmd_configure_endpoint_lem = cmd_with_context_lem configure_endpoint_command

pub cmd_enable_slot_lem : cmd_enable_slot ≡ ok (command_trb enable_slot_command 0 0)
unfolding cmd_enable_slot
cmd_enable_slot_lem =
    set_trb_type_lem zero_trb enable_slot_command (omega arith)
    ∙ ap (λ c. ok (record { data_ = 0; option = 0; control = c })) (omega arith)

pub trb_type-eq : (t : Trb) → trb_type t ≡ t.control / 2 ^ 10 % 2 ^ 6
unfolding trb_type
trb_type-eq t = read_bits-eq-field 32 10 6 t.control (omega arith) (omega arith)

pub slot_id-lt : (t : Trb) → slot_id t < 2 ^ 8
unfolding slot_id
slot_id-lt t = omega arith

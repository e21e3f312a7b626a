-- ===== src/Xhci/Trb.antt =====
-- `GenericTrbEntry` of src/xhci.rs, the 16-byte transfer request block, with its bit fields, and the
-- typed blocks that are transmuted into it.
pub mod Laws
pub mod Sample
pub mod Stages
pub mod Setup
mod Examples
use mushix.Prelude.{
  ℕ, ◌+◌, ◌*◌, ◌^◌, Bool, true, false, not, ◌==◌, bit_or, bit_and, if◌then◌else◌, ◌&&◌, Result, ok,
  err, ◌>>=◌, ◌>>◌, unwrap, to_bit,
}
use mushix.Volatile.{write_bits, read_bits}
use mushix.Word.{u8}

-- `enum TrbType`
pub data TrbType : Type 0 where
  normal setup_stage data_stage status_stage link : TrbType
  enable_slot_command address_device_command configure_endpoint_command : TrbType
  evaluate_context_command no_op_command : TrbType
  transfer_event command_completion_event port_status_change_event host_controller_event : TrbType

-- `trb_type as u32`
abbrev pub number : TrbType → ℕ
number normal = 1
number setup_stage = 2
number data_stage = 3
number status_stage = 4
number link = 6
number enable_slot_command = 9
number address_device_command = 11
number configure_endpoint_command = 12
number evaluate_context_command = 13
number no_op_command = 23
number transfer_event = 32
number command_completion_event = 33
number port_status_change_event = 34
number host_controller_event = 37

pub record Trb : Type 0 where
  pub data_ : ℕ
  pub option : ℕ
  pub control : ℕ

-- `GenericTrbEntry::default()`
abbrev pub zero_trb : Trb
zero_trb = record { data_ = 0; option = 0; control = 0 }

-- `self.control.write_bits(shift, width, value).unwrap()`
abbrev pub with_control : Trb → Result ℕ → Result Trb
with_control trb r = do control ← unwrap r; ok (record trb { control = control })

unfoldable pub set_trb_type : Trb → TrbType → Result Trb
set_trb_type trb t = with_control trb (write_bits 32 10 6 (number t) trb.control)

pub set_cycle_state : Trb → Bool → Result Trb
set_cycle_state trb cycle = with_control trb (write_bits 32 0 1 (to_bit cycle) trb.control)

pub set_toggle_cycle : Trb → Bool → Result Trb
set_toggle_cycle trb value = with_control trb (write_bits 32 1 1 (to_bit value) trb.control)

pub set_slot_id : Trb → ℕ → Result Trb
set_slot_id trb slot = with_control trb (write_bits 32 24 8 slot trb.control)

pub slot_id : Trb → ℕ
slot_id trb = u8 (read_bits 32 24 8 trb.control)

unfoldable pub trb_type : Trb → ℕ
trb_type trb = read_bits 32 10 6 trb.control

pub cycle_state : Trb → Bool
cycle_state trb = not (read_bits 32 0 1 trb.control == 0)

unfoldable pub completion_code : Trb → ℕ
completion_code trb = read_bits 32 24 8 trb.option

-- `trb_link(ring)`, given the ring's physical address.
pub trb_link : ℕ → Result Trb
trb_link phys_addr = do
  trb ← set_trb_type zero_trb link
  set_toggle_cycle (record trb { data_ = phys_addr }) true

unfoldable pub cmd_enable_slot : Result Trb
cmd_enable_slot = set_trb_type zero_trb enable_slot_command

-- The two commands that point at an input context.
cmd_with_context : TrbType → ℕ → ℕ → Result Trb
cmd_with_context t input_context slot = do
  trb ← set_trb_type zero_trb t
  set_slot_id (record trb { data_ = input_context }) slot

pub cmd_address_device : ℕ → ℕ → Result Trb
cmd_address_device = cmd_with_context address_device_command

pub cmd_configure_endpoint : ℕ → ℕ → Result Trb
cmd_configure_endpoint = cmd_with_context configure_endpoint_command

pub cmd_result_ok : Trb → Result (Unit {0})
cmd_result_ok trb =
    if not (trb_type trb == number command_completion_event)
    then err "Not a Command Completion Event"
    else if not (completion_code trb == 1)
    then err "Command Completion Event with error code"
    else ok tt

unfoldable pub transfer_result_ok : Trb → Result (Unit {0})
transfer_result_ok trb =
    if not (trb_type trb == number transfer_event)
    then err "Not a TransferEvent"
    else if not (completion_code trb == 1) && not (completion_code trb == 13)
    then err "Transfer Event with error code"
    else ok tt

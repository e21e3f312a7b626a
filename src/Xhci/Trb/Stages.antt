-- ===== src/Xhci/Trb/Stages.antt =====
-- The typed blocks of src/xhci.rs and src/trb.rs as the generic blocks that they are transmuted to:
-- the first eight bytes, little-endian, then `option` and `control`.
use mushix.Prelude.{ℕ, ◌+◌, ◌*◌, ◌^◌, ◌==◌, not, bit_or, bit_and, if◌then◌else◌}
use mushix.Word.{shl, u32}
use mushix.Xhci.Trb.{Trb, TrbType, number, normal, setup_stage, data_stage, status_stage}

-- Bits of the control word.
abbrev pub ctrl_bit_interrupt_on_short_packet : ℕ
ctrl_bit_interrupt_on_short_packet = 2 ^ 2

abbrev pub ctrl_bit_interrupt_on_completion : ℕ
ctrl_bit_interrupt_on_completion = 2 ^ 5

abbrev pub ctrl_bit_immediate_data : ℕ
ctrl_bit_immediate_data = 2 ^ 6

abbrev pub ctrl_bit_data_dir_out : ℕ
ctrl_bit_data_dir_out = 0

abbrev pub ctrl_bit_data_dir_in : ℕ
ctrl_bit_data_dir_in = 2 ^ 16

-- Parts of `bmRequestType`, and request numbers.
abbrev pub req_type_dir_device_to_host : ℕ
req_type_dir_device_to_host = 2 ^ 7

abbrev pub req_type_dir_host_to_device : ℕ
req_type_dir_host_to_device = 0

abbrev pub req_type_type_class : ℕ
req_type_type_class = 2 ^ 5

abbrev pub req_type_to_interface : ℕ
req_type_to_interface = 1

abbrev pub req_type_to_endpoint : ℕ
req_type_to_endpoint = 2

abbrev pub req_clear_feature : ℕ
req_clear_feature = 1

abbrev pub req_get_descriptor : ℕ
req_get_descriptor = 6

abbrev pub req_set_configuration : ℕ
req_set_configuration = 9

abbrev type_bits : TrbType → ℕ
type_bits t = shl 32 (number t) 10

-- The transfer type of a setup stage; the code tests `request` for the direction bit.
unfoldable pub transfer_type : ℕ → ℕ → ℕ
transfer_type request length =
    if length == 0
    then 0
    else if not (bit_and request req_type_dir_device_to_host == 0)
    then 3
    else 2

-- `SetupStageTrb::new(request_type, request, value, index, length)`
unfoldable pub setup_stage_trb : ℕ → ℕ → ℕ → ℕ → ℕ → Trb
setup_stage_trb request_type request value index length = record {
  data_ = request_type + request * 2 ^ 8 + value * 2 ^ 16 + index * 2 ^ 32 + length * 2 ^ 48;
  option = 8;
  control =
      bit_or (bit_or (shl 32 (transfer_type request length) 16) (type_bits setup_stage))
        ctrl_bit_immediate_data;
}

-- `buf.len() * size_of::<T>()` is given as `bytes`.
abbrev with_buffer : TrbType → ℕ → ℕ → ℕ → Trb
with_buffer t direction buf bytes = record {
  data_ = buf;
  option = u32 bytes;
  control =
      bit_or (bit_or (bit_or (type_bits t) direction) ctrl_bit_interrupt_on_completion)
        ctrl_bit_interrupt_on_short_packet;
}

unfoldable pub data_stage_in : ℕ → ℕ → Trb
data_stage_in = with_buffer data_stage ctrl_bit_data_dir_in

pub data_stage_out : ℕ → ℕ → Trb
data_stage_out = with_buffer data_stage ctrl_bit_data_dir_out

unfoldable pub normal_in : ℕ → ℕ → Trb
normal_in = with_buffer normal ctrl_bit_data_dir_in

-- `|` is written in another order in the source.
unfoldable pub normal_out : ℕ → ℕ → Trb
normal_out buf bytes = record {
  data_ = buf;
  option = u32 bytes;
  control =
      bit_or
        (bit_or (bit_or (type_bits normal) ctrl_bit_interrupt_on_short_packet)
          ctrl_bit_interrupt_on_completion)
        ctrl_bit_data_dir_out;
}

-- `NormalTrb::new_out` of src/trb.rs, which no module uses.
pub trb_rs_normal_out : ℕ → ℕ → Trb
trb_rs_normal_out buf bytes = record {
  data_ = buf;
  option = u32 bytes;
  control = bit_or (type_bits normal) ctrl_bit_interrupt_on_completion;
}

unfoldable pub status_stage_out : Trb
status_stage_out = record { data_ = 0; option = 0; control = type_bits status_stage }

unfoldable pub status_stage_in : Trb
status_stage_in = record {
  data_ = 0;
  option = 0;
  control =
      bit_or
        (bit_or (bit_or (type_bits status_stage) ctrl_bit_data_dir_in)
          ctrl_bit_interrupt_on_completion)
        ctrl_bit_interrupt_on_short_packet;
}

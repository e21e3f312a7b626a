-- ===== src/Xhci/Context.antt =====
-- The contexts of src/xhci.rs: input control, slot and endpoint contexts, as the words they hold.
pub mod Laws
pub mod Bulk
use mushix.Prelude.{
  ℕ, ◌+◌, ◌-◌, ◌*◌, ◌/◌, ◌^◌, ◌<◌, Bool, true, false, bit_and, bit_or, List, [], ◌∷◌, get_or, set,
  replicate, length, leb, ltb, ◌==◌, ◌&&◌, not, if◌then◌else◌, to_bit, Option, none, some, Result,
  ok, err, panic, ◌>>=◌, ◌>>◌, unwrap,
}
use mushix.Word.{shl, shr, bit_not, u32}
use mushix.Volatile.{write_bits}

pub data EndpointType : Type 0 where
  isoch_out bulk_out interrupt_out control isoch_in bulk_in interrupt_in : EndpointType

abbrev pub raw_ep_type : EndpointType → ℕ
raw_ep_type isoch_out = 1
raw_ep_type bulk_out = 2
raw_ep_type interrupt_out = 3
raw_ep_type control = 4
raw_ep_type isoch_in = 5
raw_ep_type bulk_in = 6
raw_ep_type interrupt_in = 7

pub data UsbMode : Type 0 where
  unknown : ℕ → UsbMode
  full_speed low_speed high_speed super_speed : UsbMode

abbrev pub psi : UsbMode → ℕ
psi (unknown id) = id
psi full_speed = 1
psi low_speed = 2
psi high_speed = 3
psi super_speed = 4

-- `word &= !(mask << shift); word |= value << shift`
abbrev pub set_field : ℕ → ℕ → ℕ → ℕ → ℕ
set_field mask shift value word =
    bit_or (bit_and word (bit_not 32 (shl 32 mask shift))) (shl 32 value shift)

-- `data0` and `data1` are the two words of `data`.
pub record EndpointContext : Type 0 where
  pub data0 : ℕ
  pub data1 : ℕ
  pub tr_deque_ptr : ℕ
  pub average_trb_length : ℕ
  pub max_esit_payload_low : ℕ

abbrev pub empty_ep : EndpointContext
empty_ep = record {
  data0 = 0;
  data1 = 0;
  tr_deque_ptr = 0;
  average_trb_length = 0;
  max_esit_payload_low = 0;
}

pub set_max_burst_size : EndpointContext → ℕ → Result EndpointContext
set_max_burst_size ep burst_size =
    if leb burst_size 15
    then ok (record ep { data1 = set_field 0xf 8 burst_size ep.data1 })
    else err "Invalid max burst size"

pub set_ring_deque_pointer : EndpointContext → ℕ → Result EndpointContext
set_ring_deque_pointer ep tr_deque_ptr = do
  p ← write_bits 64 4 60 (shr 64 tr_deque_ptr 4) ep.tr_deque_ptr
  ok (record ep { tr_deque_ptr = p })

pub set_max_packet_size : EndpointContext → ℕ → EndpointContext
set_max_packet_size ep max_packet_size = record ep {
  data1 = set_field 0xffff 16 max_packet_size ep.data1;
}

pub set_error_count : EndpointContext → ℕ → Result EndpointContext
set_error_count ep error_count =
    if bit_and error_count (bit_not 32 3) == 0
    then ok (record ep { data1 = set_field 3 1 error_count ep.data1 })
    else err "Invalid error count"

pub set_dequeue_cycle_state : EndpointContext → Bool → Result EndpointContext
set_dequeue_cycle_state ep dcs = do
  p ← write_bits 64 0 1 (to_bit dcs) ep.tr_deque_ptr
  ok (record ep { tr_deque_ptr = p })

pub set_ep_type : EndpointContext → EndpointType → Result EndpointContext
set_ep_type ep ep_type =
    if ltb (raw_ep_type ep_type) 8
    then ok (record ep { data1 = set_field 7 3 (raw_ep_type ep_type) ep.data1 })
    else err "Invalid endpoint type"

-- The calls that the two constructors share.
abbrev pub new_endpoint : EndpointType → ℕ → ℕ → Result EndpointContext
new_endpoint ep_type max_packet_size tr_deque_ptr = do
  ep ← set_ep_type empty_ep ep_type
  ep ← set_dequeue_cycle_state ep true
  ep ← set_error_count ep 3
  set_ring_deque_pointer (set_max_packet_size ep max_packet_size) tr_deque_ptr

pub new_control_endpoint : ℕ → ℕ → Result EndpointContext
new_control_endpoint max_packet_size tr_deque_ptr = do
  ep ← new_endpoint control max_packet_size tr_deque_ptr
  ok (record ep { average_trb_length = 8 })

pub new_bulk_endpoint : ℕ → ℕ → EndpointType → Result EndpointContext
new_bulk_endpoint max_packet_size tr_deque_ptr ep_type = do
  ep ← new_endpoint ep_type max_packet_size tr_deque_ptr
  ep ← set_max_burst_size (record ep { average_trb_length = max_packet_size }) 0
  ok (record ep { data0 = set_field 3 0 0 ep.data0 })

pub record DeviceContext : Type 0 where
  pub slot_ctx : List ℕ
  pub ep_ctx : List EndpointContext

-- `slot_ctx` has eight words.
abbrev update_slot : DeviceContext → ℕ → (ℕ → ℕ) → DeviceContext
update_slot ctx i f = record ctx { slot_ctx = set ctx.slot_ctx i (f (get_or ctx.slot_ctx i 0)) }

pub set_port_speed : DeviceContext → UsbMode → Result DeviceContext
set_port_speed ctx mode =
    if ltb (psi mode) 16
    then ok (update_slot ctx 0 (set_field 0xf 20 (psi mode)))
    else err "Invalid port speed"

pub set_last_valid_dci : DeviceContext → ℕ → Result DeviceContext
set_last_valid_dci ctx dci =
    if leb dci 31
    then ok (update_slot ctx 0 (set_field 31 27 (u32 dci)))
    else err "num_ep_ctx out of range"

pub set_root_hub_port_number : DeviceContext → ℕ → Result DeviceContext
set_root_hub_port_number ctx port =
    if ltb 0 port && ltb port 256
    then ok (update_slot ctx 1 (set_field 0xff 16 (u32 port)))
    else err "Port out of range"

pub record InputControlContext : Type 0 where
  pub drop_context_bitmap : ℕ
  pub add_context_bitmap : ℕ

pub add_context : InputControlContext → ℕ → Result InputControlContext
add_context ctx ici =
    if ltb ici 32
    then ok (record ctx { add_context_bitmap = bit_or ctx.add_context_bitmap (shl 32 1 ici) })
    else err "Input context index out of range"

pub record InputContext : Type 0 where
  pub input_ctrl_ctx : InputControlContext
  pub device_ctx : DeviceContext

abbrev pub default_input : InputContext
default_input = record {
  input_ctrl_ctx = record { drop_context_bitmap = 0; add_context_bitmap = 0 };
  device_ctx = record { slot_ctx = replicate 8 0; ep_ctx = replicate 31 empty_ep };
}

-- `dci - 1` underflows at 0 and the index panics past the end.
pub set_ep_ctx : InputContext → ℕ → EndpointContext → Result InputContext
set_ep_ctx ctx dci ep =
    if ltb 0 dci && leb dci (length ctx.device_ctx.ep_ctx)
    then ok (record ctx {
      device_ctx = record ctx.device_ctx { ep_ctx = set ctx.device_ctx.ep_ctx (dci - 1) ep };
    })
    else panic "index out of bounds"

abbrev on_device : InputContext → Result DeviceContext → Result InputContext
on_device ctx r = do d ← r; ok (record ctx { device_ctx = d })

-- The steps by which `address_device` builds the context that it sends.
abbrev pub root_context : (port : ℕ) → Result InputContext
root_context port = do
  ctrl ← add_context default_input.input_ctrl_ctx 0
  ctrl ← add_context ctrl 1
  let ctx = record default_input { input_ctrl_ctx = ctrl }
  ctx ← on_device ctx (set_root_hub_port_number ctx.device_ctx port)
  on_device ctx (set_last_valid_dci ctx.device_ctx 1)

abbrev pub with_port_speed : InputContext → UsbMode → Result InputContext
with_port_speed ctx speed = on_device ctx (set_port_speed ctx.device_ctx speed)

abbrev pub with_control_endpoint : InputContext → (max_packet_size ring : ℕ) → Result InputContext
with_control_endpoint ctx max_packet_size ring = do
  ep ← new_control_endpoint max_packet_size ring
  set_ep_ctx ctx 1 ep

-- The context that `address_device` sends.
pub address_device_context :
    (port : ℕ) → (speed : UsbMode) → (max_packet_size ring : ℕ) → Result InputContext
address_device_context port speed max_packet_size ring = do
  ctx ← root_context port
  ctx ← with_port_speed ctx speed
  with_control_endpoint ctx max_packet_size ring

-- The context that `configure_bulk_endpoint` sends.
pub configure_bulk_context : (endpoint_address max_packet_size ring dci : ℕ) → Result InputContext
configure_bulk_context endpoint_address max_packet_size ring dci = do
  ctrl ← add_context default_input.input_ctrl_ctx 0
  ctrl ← add_context ctrl dci
  let ctx = record default_input { input_ctrl_ctx = ctrl }
  ep ←
      new_bulk_endpoint max_packet_size ring
        (if not (bit_and endpoint_address 0x80 == 0) then bulk_in else bulk_out)
  ctx ← set_ep_ctx ctx dci ep
  on_device ctx (set_last_valid_dci ctx.device_ctx (if ltb 1 dci then dci else 1))

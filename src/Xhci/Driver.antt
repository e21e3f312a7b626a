-- ===== src/Xhci/Driver.antt =====
-- The commands by which `PciXhciDriver` of src/xhci.rs brings a device up: a slot for its port, its address,
-- and its bulk endpoints.
pub mod Commands
pub mod Port
pub mod Bulk
mod Examples
use mushix.Prelude.{
  ℕ, List, [], ◌∷◌, ◌++◌, length, Option, none, some, ltb, if◌then◌else◌, Result, ok, err, panic,
  ok_or,
}
use mushix.Xhci.Trb.{
  Trb, slot_id, cmd_enable_slot, cmd_address_device, cmd_configure_endpoint, cmd_result_ok,
}
use mushix.Xhci.Command.{CommandRing, default}
use mushix.Xhci.Context.{
  InputContext, root_context, with_port_speed, with_control_endpoint, configure_bulk_context,
}
use mushix.Xhci.Regs.{is_enabled, port_speed, max_packet_size, set_output_context}
use mushix.Xhci.Descriptor.{EndpointDescriptor}
use mushix.Xhci.Identify.{on_ok}
use mushix.Xhci.Control.{Endpoint, M, lift, then_in, ◌>>=◌, ◌>>◌, push_trb}

-- The parts of `Controller` that the commands change, with the input contexts that were in memory
-- when a command named them.
pub record Controller : Type 0 where
  pub commands : Endpoint
  pub contexts : List ℕ
  pub inputs : List (ℕ × InputContext)

-- The number of doorbells, and the event by which the controller answers the command at an address.
pub record Host : Type 0 where
  pub doorbells : ℕ
  pub completion : Controller → ℕ → Trb

-- `self.command_ring.lock().push(cmd)?`
push_command : Trb → M Controller ℕ
push_command cmd c = let (r, e) = push_trb cmd c.commands in (r, record c { commands = e })

-- `doorbell_regs[0].notify(0, 0)`
notify_xhc : Host → Result (Unit {0})
notify_xhc host = if ltb 0 host.doorbells then ok tt else panic "index out of bounds"

pub send_command : Host → Trb → M Controller Trb
send_command host cmd = do
  cmd_ptr ← push_command cmd
  lift (notify_xhc host)
  λ c. (ok (host.completion c cmd_ptr), c)

abbrev place_input : ℕ → InputContext → M Controller (Unit {0})
place_input at ctx c = (ok tt, record c { inputs = c.inputs ++ ((at, ctx) ∷ []) })

-- `init_port`, for the value of the port's register behind the reset, `none` without such a port.
pub init_port : Host → (portsc : Option ℕ) → M Controller ℕ
init_port host portsc = do
  value ← lift (ok_or portsc "Port not found")
  lift (if is_enabled value then ok tt else err "Port is not enabled")
  cmd ← lift cmd_enable_slot
  event ← send_command host cmd
  lift (ok (slot_id event))

-- `set_output_context_for_slot`
abbrev set_output_context_for_slot : (slot output_context : ℕ) → M Controller (Unit {0})
set_output_context_for_slot slot output_context c =
    then_in (lift (set_output_context c.contexts slot output_context) c)
      λ contexts c. (ok tt, record c { contexts = contexts })

-- The addresses of what `address_device` allocates.
pub record Allocated : Type 0 where
  pub output_context : ℕ
  pub input_context : ℕ
  pub ring : ℕ

pub address_device :
    Host → Allocated → (port : ℕ) → (portsc : Option ℕ) → (slot : ℕ) → M Controller CommandRing
address_device host at port portsc slot = do
  set_output_context_for_slot slot at.output_context
  ctx ← lift (root_context port)
  value ← lift (ok_or portsc "PORTSC was invalid")
  ctx ← lift (with_port_speed ctx (port_speed value))
  ctrl_ep_ring ← lift (default at.ring)
  packet_size ← lift (max_packet_size value)
  ctx ← lift (with_control_endpoint ctx packet_size at.ring)
  place_input at.input_context ctx
  cmd ← lift (cmd_address_device at.input_context slot)
  event ← send_command host cmd
  lift (cmd_result_ok event)
  lift (ok ctrl_ep_ring)

-- The two steps of `run` for a connected port: an error of the first ends `run`, and one of the second
-- skips the port.
pub bring_up :
    Host → Allocated → (port : ℕ) → (portsc : Option ℕ) → M Controller (Option (ℕ × CommandRing))
bring_up host at port portsc = do
  slot ← init_port host portsc
  λ c. on_ok (address_device host at port portsc slot c) λ ring. lift (ok (some (slot, ring)))

-- `configure_bulk_endpoint`, with the addresses of the ring and of the input context.
pub configure_bulk_endpoint :
    Host → (ring_at input_at slot : ℕ) → EndpointDescriptor → (dci : ℕ) → M Controller CommandRing
configure_bulk_endpoint host ring_at input_at slot ep_desc dci = do
  ep_ring ← lift (default ring_at)
  ctx ← lift (configure_bulk_context ep_desc.endpoint_address ep_desc.max_packet_size ring_at dci)
  place_input input_at ctx
  cmd ← lift (cmd_configure_endpoint input_at slot)
  event ← send_command host cmd
  lift (cmd_result_ok event)
  lift (ok ep_ring)

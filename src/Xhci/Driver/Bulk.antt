-- ===== src/Xhci/Driver/Bulk.antt =====
-- The configuration of a bulk endpoint by src/xhci.rs.
use mushix.Prelude.{ℕ, ◌^◌, ◌<◌, ◌≡◌, [], ◌∷◌, ◌++◌, ok, ◌>>=◌}
use mushix.Xhci.Trb.{configure_endpoint_command, cmd_result_ok}
use mushix.Xhci.Trb.Laws.{command_trb, cmd_configure_endpoint_lem}
use mushix.Xhci.Command.Push.{IsCommandRing}
use mushix.Xhci.Command.Ahead.{slot_ahead}
use mushix.Xhci.Command.Sequence.{started, default-eq}
use mushix.Xhci.Context.Bulk.{configured, configure_bulk_context_lem}
use mushix.Xhci.Descriptor.{EndpointDescriptor}
use mushix.Xhci.Control.Push.{then_in-lift}
use mushix.Xhci.Driver.{Controller, Host, configure_bulk_endpoint}
use mushix.Xhci.Driver.Commands.{Commanded, send_command_lem, configure_endpoint-IsCommand}

-- The controller when the command for an endpoint is sent.
abbrev pub with_input :
    (ring_at input_at : ℕ) → EndpointDescriptor → (dci : ℕ) → Controller → Controller
with_input ring_at input_at ep dci c = record c {
  inputs =
      c.inputs ++ ((input_at, configured ep.endpoint_address ep.max_packet_size ring_at dci) ∷ []);
}

-- For an endpoint with a 16-bit packet size and an index from 1 to 31, the driver sends Configure
-- Endpoint with the context of that endpoint, and gets a fresh ring exactly on success.
pub configure_bulk_endpoint_lem :
    (host : Host) (c : Controller) (ring_at input_at slot : ℕ) (ep : EndpointDescriptor) (dci : ℕ)
    → IsCommandRing c.commands.ring
    → 0 < host.doorbells
    → slot < 2 ^ 8
    → ring_at < 2 ^ 64
    → ep.max_packet_size < 2 ^ 16
    → 0 < dci
    → dci < 32
    → (c' : Controller) × (configure_bulk_endpoint host ring_at input_at slot ep dci c ≡ (
      cmd_result_ok (host.completion c' (slot_ahead c.commands.ring 0)) >>= λ _.
          ok (started ring_at),
      c',
    ))
      × Commanded
          (with_input ring_at input_at ep dci c)
          c'
          (command_trb configure_endpoint_command input_at slot)
unfolding configure_bulk_endpoint
configure_bulk_endpoint_lem host c ring_at input_at slot ep dci v bell hs hr hm hd hd' =
    let (c', runs, commanded) =
      send_command_lem host (with_input ring_at input_at ep dci c)
        (command_trb configure_endpoint_command input_at slot) v
        (configure_endpoint-IsCommand input_at slot hs) bell in
    (
      c',
      rw
          (
            default-eq ring_at,
            configure_bulk_context_lem ep.endpoint_address ep.max_packet_size ring_at dci hm hr hd
                hd',
            cmd_configure_endpoint_lem input_at slot hs,
            runs,
          )
          (then_in-lift (cmd_result_ok (host.completion c' (slot_ahead c.commands.ring 0))) c'
            (λ (u : Unit {0}). started ring_at)),
      commanded,
    )

-- ===== src/Xhci/Storage/Sector.antt =====
-- The first sector of a mass-storage device whose transfers succeed.
use mushix.Prelude.{ℕ, ◌^◌, ◌<◌, ◌≡◌, refl, ◌∙◌, List, [], ◌∷◌, ◌++◌, length, ok}
use mushix.Xhci.Trb.{transfer_result_ok, cmd_result_ok}
use mushix.Xhci.Command.Push.{IsCommandRing}
use mushix.Xhci.Command.Sequence.{started}
use mushix.Xhci.Context.{InputContext}
use mushix.Xhci.Context.Bulk.{configured}
use mushix.Xhci.Descriptor.{UsbDescriptor, EndpointDescriptor, BulkEndpoints, bulk_endpoints}
use mushix.Xhci.Scsi.Disk.{IsDisk}
use mushix.Xhci.Control.{Sent}
use mushix.Xhci.Control.Requests.{packet}
use mushix.Xhci.Control.Chain.{request_blocks}
use mushix.Xhci.Driver.{Controller, configure_bulk_endpoint}
use mushix.Xhci.Driver.Bulk.{with_input, configure_bulk_endpoint_lem}
use mushix.Xhci.Storage.{State, World, Allocated}

-- A disk with the endpoints `b`, whose requests, commands and transfers all end with a success.
pub record IsHealthy (w : World) (at : Allocated) (slot : ℕ) (ds : List UsbDescriptor)
    (b : BulkEndpoints) (disk : ℕ → List ℕ) (s : State) : Type 0 where
  pub picked : bulk_endpoints ds ≡ ok b
  pub slot_bell : slot < length w.xhc.doorbell_regs
  pub slot_small : slot < 2 ^ 8
  pub command_bell : 0 < w.host.doorbells
  pub requests :
      (sent : List Sent) (ptr : ℕ) → transfer_result_ok (w.xhc.device sent ptr).event ≡ ok tt
  pub commands : (c : Controller) (ptr : ℕ) → cmd_result_ok (w.host.completion c ptr) ≡ ok tt
  pub transfers : (ptr : ℕ) → transfer_result_ok (w.answers.event ptr) ≡ ok tt
  pub sectors_read : IsDisk w.answers disk
  pub out_at : at.out_ring < 2 ^ 64
  pub in_at : at.in_ring < 2 ^ 64
  pub out_size : b.bulk_out.max_packet_size < 2 ^ 16
  pub in_size : b.bulk_in.max_packet_size < 2 ^ 16
  pub out_number : 0 < b.bulk_out_dci
  pub endpoint_ring : IsCommandRing s.endpoint_0.ring
  pub command_ring : IsCommandRing s.controller.commands.ring

module _ (w : World) (at : Allocated) (slot : ℕ) (ds : List UsbDescriptor) (b : BulkEndpoints)
    (disk : ℕ → List ℕ) (s : State) (h : IsHealthy w at slot ds b disk s) where
  -- A fresh ring for an endpoint.
  endpoint_ring :
      (c : Controller) (ring_at input_at : ℕ) (ep : EndpointDescriptor) (dci : ℕ)
      → IsCommandRing c.commands.ring
      → ring_at < 2 ^ 64
      → ep.max_packet_size < 2 ^ 16
      → 0 < dci
      → dci < 32
      → (c' : Controller) × (configure_bulk_endpoint w.host ring_at input_at slot ep dci c
          ≡ (ok (started ring_at), c'))
        × IsCommandRing c'.commands.ring
        × (c'.inputs ≡ (with_input ring_at input_at ep dci c).inputs)
  endpoint_ring c ring_at input_at ep dci v hr hm hd hd' =
      let (c', runs, commanded) =
        configure_bulk_endpoint_lem w.host c ring_at input_at slot ep dci v h.command_bell
          h.slot_small hr hm hd hd' in
      (c', runs ∙ rw (h.commands c' _) refl, commanded.ahead.good, commanded.inputs)

  -- The requests on endpoint 0, in their order.
  abbrev pub requests_sent : List Sent
  requests_sent =
      let e = s.endpoint_0 in
      request_blocks e 0 (packet 0 9 b.config_desc.config_value 0)
      ++ request_blocks e 2 (packet 0x21 0xff 0 0)
      ++ request_blocks e 4 (packet 2 1 0 b.bulk_in.endpoint_address)
      ++ request_blocks e 6 (packet 2 1 0 b.bulk_out.endpoint_address)

  abbrev pub out_context : ℕ × InputContext
  out_context = (
    at.out_input,
    configured b.bulk_out.endpoint_address b.bulk_out.max_packet_size at.out_ring b.bulk_out_dci,
  )

  abbrev pub in_context : ℕ × InputContext
  in_context = (
    at.in_input,
    configured b.bulk_in.endpoint_address b.bulk_in.max_packet_size at.in_ring b.bulk_in_dci,
  )

  -- The contexts of the two endpoints, in their order.
  abbrev pub inputs_sent : List (ℕ × InputContext)
  inputs_sent = out_context ∷ in_context ∷ []

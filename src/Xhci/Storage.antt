-- ===== src/Xhci/Storage.antt =====
-- `handle_mass_storage_device` of src/xhci.rs: from the descriptors of a device to its first sector.
pub mod Sector
mod Examples
use mushix.Prelude.{ℕ, List, Result, ok, err, panic}
use mushix.Xhci.Command.{CommandRing}
use mushix.Xhci.Regs.{notify_ep}
use mushix.Xhci.Descriptor.{UsbDescriptor, bulk_endpoints}
use mushix.Xhci.Scsi.{Answers, Buffers, scsi_read_10}
use mushix.Xhci.Control.{
  Xhc, Endpoint, M, lift, then_in, ◌>>=◌, ◌>>◌, request_set_config, clear_endpoint_halt,
  bulk_only_mass_storage_reset,
}
use mushix.Xhci.Driver.{Controller, Host, configure_bulk_endpoint}

-- The two things that the function changes: the controller, and the ring of endpoint 0.
pub record State : Type 0 where
  pub controller : Controller
  pub endpoint_0 : Endpoint

-- Who answers: the device on endpoint 0, the controller to commands, and the device on its bulk
-- endpoints.
pub record World : Type 0 where
  pub xhc : Xhc
  pub host : Host
  pub answers : Answers

-- The addresses of what the function allocates.
pub record Allocated : Type 0 where
  pub out_ring : ℕ
  pub out_input : ℕ
  pub in_ring : ℕ
  pub in_input : ℕ
  pub bufs : Buffers

on_controller : {A : Type 0} → M Controller A → M State A
on_controller m s = let (r, c) = m s.controller in (r, record s { controller = c })

on_endpoint_0 : {A : Type 0} → M Endpoint A → M State A
on_endpoint_0 m s = let (r, e) = m s.endpoint_0 in (r, record s { endpoint_0 = e })

-- `unwrap_or_else` with a function that prints.
abbrev without_error : {S : Type 0} → Result (Unit {0}) × S → Result (Unit {0}) × S
without_error (ok u, s) = (ok u, s)
without_error (err m, s) = (ok tt, s)
without_error (panic m, s) = (panic m, s)

ignoring : M State (Unit {0}) → M State (Unit {0})
ignoring m s = without_error (m s)

abbrev pub rung : Result (ℕ × ℕ × ℕ) → Result (Unit {0})
rung (ok r) = ok tt
rung (err m) = err m
rung (panic m) = panic m

abbrev pub bell : World → (slot dci : ℕ) → Result (Unit {0})
bell w slot dci = rung (notify_ep w.xhc.doorbell_regs slot dci w.xhc.usbsts)

-- The result is the sector that `scsi_read_10` passes to `analyze_sector_zero`. The two checks of
-- the endpoints' directions, which never fail, stand with the other checks in `bulk_endpoints`.
pub handle_mass_storage_device :
    World → Allocated → (slot : ℕ) → List UsbDescriptor → M State (List ℕ)
handle_mass_storage_device w at slot descriptors = do
  b ← lift (bulk_endpoints descriptors)
  on_endpoint_0 (request_set_config w.xhc slot b.config_desc.config_value)
  on_endpoint_0 (bulk_only_mass_storage_reset w.xhc slot)
  bulk_out_ring ←
      on_controller
        (configure_bulk_endpoint w.host at.out_ring at.out_input slot b.bulk_out b.bulk_out_dci)
  bulk_in_ring ←
      on_controller
        (configure_bulk_endpoint w.host at.in_ring at.in_input slot b.bulk_in b.bulk_in_dci)
  ignoring (on_endpoint_0 (clear_endpoint_halt w.xhc slot b.bulk_in.endpoint_address))
  ignoring (on_endpoint_0 (clear_endpoint_halt w.xhc slot b.bulk_out.endpoint_address))
  (read_data, _, _) ← lift (
      scsi_read_10 w.answers (bell w slot b.bulk_in_dci) (bell w slot b.bulk_out_dci) at.bufs 0 1
        bulk_in_ring bulk_out_ring)
  lift (ok read_data)

-- ===== src/Xhci/Control/Examples.antt =====
-- Requests on a fresh ring of endpoint 0.
use mushix.Prelude.{◌≡◌, [], ◌∷◌, ok, ◌>>=◌}
use mushix.Xhci.Command.{CommandRing}
use mushix.Xhci.Command.Sequence.{started, started-IsCommandRing}
use mushix.Xhci.Command.Ahead.{Ahead, slot_ahead}
use mushix.Xhci.Control.{
  Xhc, Endpoint, device, received, request_descriptor, request_set_config, clear_endpoint_halt,
  bulk_only_mass_storage_reset,
}
use mushix.Xhci.Control.Push.{outcome}
use mushix.Xhci.Control.Requests.{
  Requests, packet, descriptor_sent, request_descriptor_lem, no_data-Requests,
}

abbrev xhc : Xhc
xhc = record {
  doorbell_regs = 0x2000 ∷ 0x2004 ∷ [];
  usbsts = 0;
  device = λ sent ptr. record {
    event = record { data_ = ptr; option = 0x1000000; control = 0x8001 };
    incoming = 18 ∷ 1 ∷ [];
  };
}

abbrev fresh : Endpoint
fresh = record { ring = started 0x1000; sent = [] }

request_descriptor_lem_example :
    (ring : CommandRing) × (request_descriptor xhc 1 device 0 0 0x3000 18 fresh ≡ (
      outcome xhc 1 (descriptor_sent fresh device 0 0 0x3000 18) (slot_ahead fresh.ring 1)
          >>= λ bytes. ok (received 18 bytes),
      record { ring = ring; sent = descriptor_sent fresh device 0 0 0x3000 18 },
    ))
    × Ahead fresh.ring ring 3
request_descriptor_lem_example =
    request_descriptor_lem xhc 1 fresh (started-IsCommandRing 0x1000) device 0 0 0x3000 18

no_data-Requests_example :
    Requests xhc 1 fresh
      (started-IsCommandRing 0x1000)
      (request_set_config xhc 1 1)
      (packet 0 9 1 0)
    × Requests xhc 1 fresh
        (started-IsCommandRing 0x1000)
        (clear_endpoint_halt xhc 1 0x81)
        (packet 2 1 0 0x81)
    × Requests xhc 1 fresh
        (started-IsCommandRing 0x1000)
        (bulk_only_mass_storage_reset xhc 1)
        (packet 0x21 0xff 0 0)
no_data-Requests_example = no_data-Requests xhc 1 fresh (started-IsCommandRing 0x1000) 1 0x81

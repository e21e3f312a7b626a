-- ===== src/Xhci/Descriptor/Examples.antt =====
-- The laws at the descriptors of a small mass-storage device.
use mushix.Prelude.{ℕ, ◌≡◌, ◌++◌, arith, [], length, some, ok}
use mushix.Xhci.Descriptor.{collect, scan, start, bulk_endpoints}
use mushix.Xhci.Descriptor.Iterate.{concat, descriptors_of, collect_lem}
use mushix.Xhci.Descriptor.Bulk.{Picked, bulk_endpoints_lem}
use mushix.Xhci.Descriptor.Sample.{device, device-IsDescriptor}

collect_lem_example :
    collect 5 ([] ++ concat device) (length {A = ℕ} []) ≡ ok (some (descriptors_of device))
collect_lem_example = collect_lem 5 [] device device-IsDescriptor (omega arith)

bulk_endpoints_lem_example :
    Picked (scan (descriptors_of device) start) (bulk_endpoints (descriptors_of device))
bulk_endpoints_lem_example = bulk_endpoints_lem (descriptors_of device)

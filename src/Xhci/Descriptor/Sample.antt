-- ===== src/Xhci/Descriptor/Sample.antt =====
-- The descriptors of a small mass-storage device.
use mushix.Prelude.{ℕ, ◌≡◌, ok, refl, arith, List, [], ◌∷◌, All}
use mushix.Xhci.Descriptor.{BulkEndpoints, scan, pick, bulk_endpoints}
use mushix.Xhci.Descriptor.Iterate.{IsDescriptor, descriptors_of}

abbrev configuration : List ℕ
configuration = 9 ∷ 2 ∷ 32 ∷ 0 ∷ 1 ∷ 1 ∷ 0 ∷ 0x80 ∷ 50 ∷ []

abbrev storage : List ℕ
storage = 9 ∷ 4 ∷ 0 ∷ 0 ∷ 2 ∷ 8 ∷ 6 ∷ 0x50 ∷ 0 ∷ []

abbrev bulk_in : List ℕ
bulk_in = 7 ∷ 5 ∷ 0x81 ∷ 2 ∷ 0 ∷ 2 ∷ 0 ∷ []

abbrev bulk_out : List ℕ
bulk_out = 7 ∷ 5 ∷ 2 ∷ 2 ∷ 0 ∷ 2 ∷ 0 ∷ []

abbrev pub device : List (List ℕ)
device = configuration ∷ storage ∷ bulk_in ∷ bulk_out ∷ []

pub device-IsDescriptor : All IsDescriptor device
device-IsDescriptor = (
  record {
    header = omega arith;
    len = refl;
    config_len = λ e. omega arith;
    interface_len = λ e. omega arith;
    endpoint_len = λ e. omega arith;
  },
  (
    record {
      header = omega arith;
      len = refl;
      config_len = λ e. omega arith;
      interface_len = λ e. omega arith;
      endpoint_len = λ e. omega arith;
    },
    (
      record {
        header = omega arith;
        len = refl;
        config_len = λ e. absurd (omega (arith, e));
        interface_len = λ e. absurd (omega (arith, e));
        endpoint_len = λ e. omega arith;
      },
      (
        record {
          header = omega arith;
          len = refl;
          config_len = λ e. absurd (omega (arith, e));
          interface_len = λ e. absurd (omega (arith, e));
          endpoint_len = λ e. omega arith;
        },
        tt,
      ),
    ),
  ),
)

-- The endpoints that the driver picks.
abbrev pub endpoints : BulkEndpoints
endpoints = record {
  config_desc = record {
    total_length = 32;
    num_of_interfaces = 1;
    config_value = 1;
    config_string_index = 0;
    attributes = 0x80;
    max_power = 50;
  };
  bulk_in = record {
    endpoint_address = 0x81;
    ep_attributes = 2;
    max_packet_size = 512;
    interval = 0;
  };
  bulk_out = record {
    endpoint_address = 2;
    ep_attributes = 2;
    max_packet_size = 512;
    interval = 0;
  };
  bulk_in_dci = 3;
  bulk_out_dci = 4;
}

pub bulk_endpoints-device : bulk_endpoints (descriptors_of device) ≡ ok endpoints
unfolding bulk_endpoints scan pick
bulk_endpoints-device = refl

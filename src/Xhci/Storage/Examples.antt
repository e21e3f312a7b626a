-- ===== src/Xhci/Storage/Examples.antt =====
-- A device with two bulk endpoints, whose transfers succeed.
use mushix.Prelude.{ℕ, zero, suc, List, [], ◌∷◌, replicate}
use mushix.Xhci.Trb.Sample.{transfer_success, command_success}
use mushix.Xhci.Command.Sequence.{started}
use mushix.Xhci.Descriptor.Sample.{device}
use mushix.Xhci.Scsi.Disk.{sectors}
use mushix.Bytes.{from_be_16, from_be_32}
use mushix.Xhci.Storage.{State, World, Allocated}

-- A disk whose sectors hold their own numbers, and a status block that passes.
abbrev numbered : ℕ → List ℕ
numbered n = replicate 512 n

abbrev answered : List ℕ → ℕ → List ℕ
answered cbw zero = sectors numbered (from_be_32 cbw 17) (from_be_16 cbw 22)
answered cbw (suc transfer) = 0x55 ∷ 0x53 ∷ 0x42 ∷ 0x53 ∷ 3 ∷ 0 ∷ 0 ∷ 0 ∷ 0 ∷ 0 ∷ 0 ∷ 0 ∷ 0 ∷ []

abbrev world : World
world = record {
  xhc = record {
    doorbell_regs = 0x2000 ∷ 0x2004 ∷ [];
    usbsts = 0;
    device = λ sent ptr. record { event = transfer_success; incoming = [] };
  };
  host = record { doorbells = 2; completion = λ c ptr. command_success };
  answers = record { event = λ ptr. transfer_success; incoming = answered };
}

abbrev at : Allocated
at = record {
  out_ring = 0x3000;
  out_input = 0x4000;
  in_ring = 0x5000;
  in_input = 0x6000;
  bufs = record { cbw = 0x7000; data_ = 0x7100; csw = 0x7300 };
}

abbrev before : State
before = record {
  controller = record {
    commands = record { ring = started 0x1000; sent = [] };
    contexts = replicate 255 0;
    inputs = [];
  };
  endpoint_0 = record { ring = started 0x2000; sent = [] };
}

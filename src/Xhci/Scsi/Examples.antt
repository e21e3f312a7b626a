-- ===== src/Xhci/Scsi/Examples.antt =====
-- A concrete READ(10) over two bulk rings.
use mushix.Prelude.{
  ℕ, zero, suc, arith, List, [], ◌∷◌, length-replicate, ◌≡◌, refl, replicate, ok, ◌>>◌,
}
use mushix.Cbw.{new_read_10, bytes_of}
use mushix.Xhci.Trb.Sample.{transfer_success, transfer_success-ok}
use mushix.Xhci.Command.{CommandRing}
use mushix.Xhci.Command.Sequence.{started, started-IsCommandRing}
use mushix.Xhci.Command.Ahead.{Ahead}
use mushix.Xhci.Scsi.{Answers, Buffers, scsi_read_10, check_csw, read_10_cbw}
use mushix.Xhci.Scsi.Transfers.{Served, read_10_cbw-new_read_10}
use mushix.Xhci.Scsi.Disk.{sectors, IsDisk, scsi_read_10_lem}
use mushix.Xhci.Control.{received}
use mushix.Bytes.{from_be_16, from_be_32}

abbrev in_ring : CommandRing
in_ring = started 0x1000

abbrev out_ring : CommandRing
out_ring = started 0x2000

-- A disk whose sectors hold their own numbers, and a status block that passes.
abbrev numbered : ℕ → List ℕ
numbered n = replicate 512 n

abbrev passed : List ℕ
passed = 0x55 ∷ 0x53 ∷ 0x42 ∷ 0x53 ∷ 3 ∷ 0 ∷ 0 ∷ 0 ∷ 0 ∷ 0 ∷ 0 ∷ 0 ∷ 0 ∷ []

abbrev answered : List ℕ → ℕ → List ℕ
answered cbw zero = sectors numbered (from_be_32 cbw 17) (from_be_16 cbw 22)
answered cbw (suc transfer) = passed

abbrev answers : Answers
answers = record { event = λ ptr. transfer_success; incoming = answered }

numbered-IsDisk : IsDisk answers numbered
numbered-IsDisk = record { size = length-replicate 512; reads = λ cbw h. refl }

passes : check_csw passed ≡ ok tt
unfolding check_csw
passes = refl

abbrev bufs : Buffers
bufs = record { cbw = 0x3000; data_ = 0x4000; csw = 0x5000 }

all_served : Served answers (ok tt) (ok tt) in_ring out_ring
all_served = record {
  in_good = started-IsCommandRing 0x1000;
  out_good = started-IsCommandRing 0x2000;
  in_rings = refl;
  out_rings = refl;
  sent = transfer_success-ok;
  data_ = transfer_success-ok;
  status = transfer_success-ok;
}

read_10_cbw-new_read_10_example : read_10_cbw 0x12345678 16 ≡ bytes_of (new_read_10 0x12345678 16 3)
read_10_cbw-new_read_10_example = read_10_cbw-new_read_10 0x12345678 16

scsi_read_10_lem_example :
    (in' out' : CommandRing) × (scsi_read_10 answers (ok tt) (ok tt) bufs 7 2 in_ring out_ring ≡ (
      check_csw (received 13 (answers.incoming (read_10_cbw 7 2) 1))
      >> ok (sectors numbered 7 2, in', out')))
    × Ahead in_ring in' 2
    × Ahead out_ring out' 1
scsi_read_10_lem_example =
    scsi_read_10_lem answers (ok tt) (ok tt) bufs in_ring out_ring numbered 7 2 all_served
      numbered-IsDisk (omega arith) (omega arith)

-- ===== src/Xhci/Scsi.antt =====
-- The SCSI commands of `PciXhciDriver` in src/xhci.rs: the command blocks, the transfers over the bulk
-- rings, and the answers.
pub mod Transfers
pub mod Disk
mod Examples
use mushix.Prelude.{
  ℕ, ◌+◌, ◌*◌, ◌/◌, ◌^◌, ◌<◌, List, [], ◌∷◌, length, get_or, set, replicate, ltb, ◌==◌, not,
  if◌then◌else◌, Result, ok, err, panic, ◌>>=◌, ◌>>◌, arith,
}
use mushix.Bytes.{le_bytes_32, be_bytes_32, be_bytes_16, from_le_32, from_be_32, splice}
use mushix.Xhci.Trb.{Trb, transfer_result_ok}
use mushix.Xhci.Trb.Stages.{normal_in, normal_out}
use mushix.Xhci.Command.{CommandRing, push}
use mushix.Xhci.Control.{received}

-- The assignments to `cbw_data` in `scsi_inquiry`.
pub inquiry_cbw : List ℕ
inquiry_cbw =
    let b = splice (replicate 31 0) 0 (le_bytes_32 0x43425355) in
    let b = splice b 4 (le_bytes_32 1) in
    let b = splice b 8 (le_bytes_32 36) in
    let b = set b 12 0x80 in
    let b = set b 13 0 in
    let b = set b 14 6 in
    let b = set b 15 0x12 in
    let b = set b 16 0 in
    let b = set b 17 0 in let b = set b 18 0 in let b = set b 19 36 in set b 20 0

-- The assignments to `cbw_data` in `scsi_read_10`.
pub read_10_cbw : ℕ → ℕ → List ℕ
read_10_cbw lba transfer_length =
    let b = splice (replicate 31 0) 0 (le_bytes_32 0x43425355) in
    let b = splice b 4 (le_bytes_32 3) in
    let b = splice b 8 (le_bytes_32 (transfer_length * 512)) in
    let b = set b 12 0x80 in
    let b = set b 13 0 in
    let b = set b 14 10 in
    let b = set b 15 0x28 in
    let b = set b 16 0 in
    let b = splice b 17 (be_bytes_32 lba) in
    let b = set b 21 0 in let b = splice b 22 (be_bytes_16 transfer_length) in set b 24 0

-- What the controller and the device answer: the transfer event for a block's address, and the
-- bytes that the device sends for a command block, in the first IN transfer behind it (0, the data)
-- and in the second (1, the status).
pub record Answers : Type 0 where
  pub event : ℕ → Trb
  pub incoming : (cbw : List ℕ) → (transfer : ℕ) → List ℕ

-- The addresses of the buffers that the driver allocates for a command.
pub record Buffers : Type 0 where
  pub cbw : ℕ
  pub data_ : ℕ
  pub csw : ℕ

-- One transfer: push its block, ring the doorbell, wait for the block's event.
pub transfer : Answers → Result (Unit {0}) → CommandRing → Trb → Result (ℕ × CommandRing)
transfer answers doorbell ring trb = do
  (ptr, ring) ← push ring trb
  doorbell
  transfer_result_ok (answers.event ptr)
  ok (ptr, ring)

-- The three transfers of the command block `cbw` that reads `size` bytes: the buffers of the data
-- and of the status behind them, filled with zeroes where less came.
pub exchange :
    Answers
    → (in_bell out_bell : Result (Unit {0})) → Buffers
    → (cbw : List ℕ) → (size : ℕ) → (in_ring out_ring : CommandRing)
    → Result (List ℕ × List ℕ × CommandRing × CommandRing)
exchange answers in_bell out_bell bufs cbw size in_ring out_ring = do
  (_, out_ring) ← transfer answers out_bell out_ring (normal_out bufs.cbw (length cbw))
  (_, in_ring) ← transfer answers in_bell in_ring (normal_in bufs.data_ size)
  (_, in_ring) ← transfer answers in_bell in_ring (normal_in bufs.csw 13)
  ok (
    received size (answers.incoming cbw 0),
    received 13 (answers.incoming cbw 1),
    in_ring,
    out_ring,
  )

-- `scsi_inquiry`, which does not look at the status.
pub scsi_inquiry :
    Answers
    → (in_bell out_bell : Result (Unit {0})) → Buffers
    → (in_ring out_ring : CommandRing) → Result (List ℕ × CommandRing × CommandRing)
scsi_inquiry answers in_bell out_bell bufs in_ring out_ring = do
  (read_data, csw, in_ring, out_ring) ←
      exchange answers in_bell out_bell bufs inquiry_cbw 36 in_ring out_ring
  ok (read_data, in_ring, out_ring)

-- The check of the status block; the tag is read and printed only.
pub check_csw : List ℕ → Result (Unit {0})
check_csw csw =
    if not (from_le_32 csw 0 == 0x53425355)
    then err "Invalid CSW signature"
    else if not (get_or csw 12 0 == 0)
    then err "SCSI command failed"
    else ok tt

pub scsi_read_10 :
    Answers
    → (in_bell out_bell : Result (Unit {0})) → Buffers
    → (lba transfer_length : ℕ) → (in_ring out_ring : CommandRing)
    → Result (List ℕ × CommandRing × CommandRing)
scsi_read_10 answers in_bell out_bell bufs lba transfer_length in_ring out_ring = do
  (read_data, csw, in_ring, out_ring) ←
      exchange answers in_bell out_bell bufs (read_10_cbw lba transfer_length)
        (transfer_length * 512) in_ring out_ring
  check_csw csw
  ok (read_data, in_ring, out_ring)

-- `parse_read_capacity_response`; `last_lba + 1` panics on overflow in a debug build.
pub parse_read_capacity_response : List ℕ → Result (ℕ × ℕ)
parse_read_capacity_response buf =
    if ltb (length buf) 8
    then err "READ CAPACITY response too short"
    else if ltb (from_be_32 buf 0 + 1) (2 ^ 32)
    then ok (from_be_32 buf 0, from_be_32 buf 4)
    else panic "attempt to add with overflow"

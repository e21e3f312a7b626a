-- ===== src/Xhci/Scsi/Transfers.antt =====
-- What the bulk transfers of a SCSI command do when the controller answers them.
use mushix.Prelude.{
  ℕ, ◌+◌, ◌*◌, ◌^◌, ◌<◌, ◌≡◌, refl, arith, List, ◌++◌, length, Result, ok, panic, ◌>>◌, false, ltb,
  if◌then◌else◌,
}
use mushix.Volatile
use mushix.Bytes.{be_bytes_32, from_be-be_bytes_32}
use mushix.Cbw.{new_read_10, bytes_of}
use mushix.Xhci.Trb.{Trb, trb_type, transfer_result_ok}
use mushix.Xhci.Trb.Stages.{normal_in, normal_out}
use mushix.Xhci.Command.{CommandRing}
use mushix.Xhci.Command.Push.{IsCommandRing, IsCommand}
use mushix.Xhci.Command.Ahead.{Ahead, Ahead-trans, Ahead-slot, slot_ahead, push-Ahead}
use mushix.Xhci.Control.{received}
use mushix.Xhci.Scsi.{
  Answers, Buffers, transfer, exchange, scsi_inquiry, scsi_read_10, check_csw, read_10_cbw,
  inquiry_cbw, parse_read_capacity_response,
}

-- The command block that `scsi_read_10` writes by hand is, byte for byte, the structure that
-- `CommandBlockWrapper::new_read_10` builds for the same arguments and tag 3.
pub read_10_cbw-new_read_10 :
    (lba transfer_length : ℕ)
    → read_10_cbw lba transfer_length ≡ bytes_of (new_read_10 lba transfer_length 3)
unfolding read_10_cbw new_read_10
read_10_cbw-new_read_10 lba transfer_length = refl

normal_in-IsCommand : (buf bytes : ℕ) → IsCommand (normal_in buf bytes)
unfolding normal_in trb_type Volatile.read_bits
normal_in-IsCommand buf bytes = record { word = omega arith; plain = omega arith }

normal_out-IsCommand : (buf bytes : ℕ) → IsCommand (normal_out buf bytes)
unfolding normal_out trb_type Volatile.read_bits
normal_out-IsCommand buf bytes = record { word = omega arith; plain = omega arith }

transfer_lem :
    (answers : Answers) (bell : Result (Unit {0})) (c : CommandRing) (t : Trb)
    → IsCommandRing c
    → IsCommand t
    → bell ≡ ok tt
    → transfer_result_ok (answers.event (slot_ahead c 0)) ≡ ok tt
    → (c' : CommandRing) × (transfer answers bell c t ≡ ok (slot_ahead c 0, c')) × Ahead c c' 1
unfolding transfer
transfer_lem answers bell c t v s rings answered =
    let (c', runs, ahead) = push-Ahead c t v s in (c', rw (runs, rings, answered) refl, ahead)

-- The conditions of a command: sound rings, doorbells that ring, and a successful transfer event
-- for each of the three blocks.
pub record Served (answers : Answers) (in_bell out_bell : Result (Unit {0}))
    (in_ring out_ring : CommandRing) : Type 0 where
  pub in_good : IsCommandRing in_ring
  pub out_good : IsCommandRing out_ring
  pub in_rings : in_bell ≡ ok tt
  pub out_rings : out_bell ≡ ok tt
  pub sent : transfer_result_ok (answers.event (slot_ahead out_ring 0)) ≡ ok tt
  pub data_ : transfer_result_ok (answers.event (slot_ahead in_ring 0)) ≡ ok tt
  pub status : transfer_result_ok (answers.event (slot_ahead in_ring 1)) ≡ ok tt

module _ (answers : Answers) (in_bell out_bell : Result (Unit {0})) (bufs : Buffers)
    (in_ring out_ring : CommandRing) (s : Served answers in_bell out_bell in_ring out_ring) where
  exchange_lem :
      (cbw : List ℕ) (size : ℕ)
      → (in' out' : CommandRing) × (exchange answers in_bell out_bell bufs cbw size in_ring out_ring
          ≡ ok (
            received size (answers.incoming cbw 0),
            received 13 (answers.incoming cbw 1),
            in',
            out',
          ))
        × Ahead in_ring in' 2
        × Ahead out_ring out' 1
  unfolding exchange
  exchange_lem cbw size =
      let (out1, sends, out_ahead) =
        transfer_lem answers out_bell out_ring (normal_out bufs.cbw (length cbw)) s.out_good
          (normal_out-IsCommand bufs.cbw (length cbw)) s.out_rings s.sent in
      let (in1, reads, in_ahead) =
        transfer_lem answers in_bell in_ring (normal_in bufs.data_ size) s.in_good
          (normal_in-IsCommand bufs.data_ size) s.in_rings s.data_ in
      let (in2, ends, end_ahead) =
        transfer_lem answers in_bell in1 (normal_in bufs.csw 13) in_ahead.good
          (normal_in-IsCommand bufs.csw 13) s.in_rings (rw (Ahead-slot in_ahead 0) s.status) in
      (in2, out1, rw (sends, reads, ends) refl, Ahead-trans in_ahead end_ahead, out_ahead)

  -- READ(10), whatever the device answers to its command block.
  pub read_10-exchange :
      (lba transfer_length : ℕ)
      → (in' out' : CommandRing) × (scsi_read_10 answers in_bell out_bell bufs lba transfer_length
            in_ring out_ring
          ≡ (check_csw (received 13 (answers.incoming (read_10_cbw lba transfer_length) 1))
              >> ok (
                received
                    (transfer_length * 512)
                    (answers.incoming (read_10_cbw lba transfer_length) 0),
                in',
                out',
              )))
        × Ahead in_ring in' 2
        × Ahead out_ring out' 1
  unfolding scsi_read_10
  read_10-exchange lba transfer_length =
      let (in', out', runs, in_ahead, out_ahead) =
        exchange_lem (read_10_cbw lba transfer_length) (transfer_length * 512) in
      (in', out', rw runs refl, in_ahead, out_ahead)

  -- Under the same conditions INQUIRY returns 36 bytes of what the device sends as data for its
  -- command block, filled up with zeroes, whatever the status block says.
  pub scsi_inquiry_lem :
      (in' out' : CommandRing) × (scsi_inquiry answers in_bell out_bell bufs in_ring out_ring
        ≡ ok (received 36 (answers.incoming inquiry_cbw 0), in', out'))
      × Ahead in_ring in' 2
      × Ahead out_ring out' 1
  unfolding scsi_inquiry
  scsi_inquiry_lem =
      let (in', out', runs, in_ahead, out_ahead) = exchange_lem inquiry_cbw 36 in
      (in', out', rw runs refl, in_ahead, out_ahead)

-- An answer of READ CAPACITY that holds a last block and a block size in big-endian order gives
-- both back, unless the last block is 2 ^ 32 - 1: then counting the blocks overflows.
pub parse_read_capacity_response_lem :
    (lba block_size : ℕ) (rest : List ℕ)
    → lba < 2 ^ 32
    → block_size < 2 ^ 32
    → parse_read_capacity_response (be_bytes_32 lba ++ be_bytes_32 block_size ++ rest) ≡ (
        if ltb (lba + 1) (2 ^ 32)
        then ok (lba, block_size)
        else panic "attempt to add with overflow")
unfolding parse_read_capacity_response
parse_read_capacity_response_lem lba block_size rest hl hb =
    rw (long_enough, from_be-be_bytes_32 lba hl, from_be-be_bytes_32 block_size hb) refl
  where
    long_enough : ltb (length (be_bytes_32 lba ++ be_bytes_32 block_size ++ rest)) 8 ≡ false
    long_enough = ground arith

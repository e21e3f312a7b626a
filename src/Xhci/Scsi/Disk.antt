-- ===== src/Xhci/Scsi/Disk.antt =====
-- READ(10) of src/xhci.rs against a disk that decodes the command block.
use mushix.Prelude.{
  ℕ, zero, suc, ◌+◌, ◌*◌, ◌^◌, ◌<◌, ◌≡◌, ◌∙◌, ap, refl, arith, List, [], ◌++◌, length,
  length-append, get_or, Result, ok, ◌>>◌,
}
use mushix.Bytes.{be_bytes_16, from_be_16, from_be_32, from_be-be_bytes_16, from_be-be_bytes_32}
use mushix.Xhci.Command.{CommandRing}
use mushix.Xhci.Command.Ahead.{Ahead}
use mushix.Xhci.Control.{received}
use mushix.Xhci.Identify.Served.{received_whole}
use mushix.Xhci.Scsi.{Answers, Buffers, scsi_read_10, check_csw, read_10_cbw}
use mushix.Xhci.Scsi.Transfers.{Served, read_10-exchange}

-- The sectors from `lba` on.
abbrev pub sectors : (ℕ → List ℕ) → ℕ → ℕ → List ℕ
sectors disk lba zero = []
sectors disk lba (suc n) = disk lba ++ sectors disk (lba + 1) n

-- Sectors of 512 bytes; a command block with the operation code of READ(10), with a block number in
-- bytes 17 to 20 and a count in bytes 22 and 23, gets these sectors as its data.
pub record IsDisk (answers : Answers) (disk : ℕ → List ℕ) : Type 0 where
  pub size : (n : ℕ) → length (disk n) ≡ 512
  pub reads :
      (cbw : List ℕ)
      → get_or cbw 15 0 ≡ 0x28
      → answers.incoming cbw 0 ≡ sectors disk (from_be_32 cbw 17) (from_be_16 cbw 22)

length-sectors :
    (disk : ℕ → List ℕ) (lba n : ℕ)
    → ((k : ℕ) → length (disk k) ≡ 512)
    → length (sectors disk lba n) ≡ n * 512
length-sectors disk lba zero h = omega arith
length-sectors disk lba (suc n) h =
    length-append (disk lba) (sectors disk (lba + 1) n)
    ∙ omega (arith, h lba, length-sectors disk (lba + 1) n h)

-- What a disk sends for the command block of READ(10).
reads_sectors :
    (answers : Answers) (disk : ℕ → List ℕ) (lba n : ℕ)
    → IsDisk answers disk
    → lba < 2 ^ 32
    → n < 2 ^ 16
    → received (n * 512) (answers.incoming (read_10_cbw lba n) 0) ≡ sectors disk lba n
unfolding read_10_cbw
reads_sectors answers disk lba n d hl hn =
    ap (received (n * 512)) (
      d.reads (read_10_cbw lba n) refl
      ∙ ap (λ a. sectors disk a (from_be_16 (be_bytes_16 n) 0)) (from_be-be_bytes_32 lba hl)
      ∙ ap (sectors disk lba) (from_be-be_bytes_16 n hn))
    ∙ received_whole (n * 512) (sectors disk lba n) (length-sectors disk lba n d.size)

-- For a disk that decodes the command block, when the rings are well formed, the doorbells ring and
-- each of the three blocks gets a successful transfer event, READ(10) of some sectors from a block
-- on returns exactly the bytes of these sectors of the disk when the 13 bytes of status, filled up
-- with zeroes, pass their check, and the check's error otherwise; the IN ring has two more blocks
-- and the OUT ring one.
pub scsi_read_10_lem :
    (answers : Answers) (in_bell out_bell : Result (Unit {0})) (bufs : Buffers)
    (in_ring out_ring : CommandRing) (disk : ℕ → List ℕ) (lba transfer_length : ℕ)
    → Served answers in_bell out_bell in_ring out_ring
    → IsDisk answers disk
    → lba < 2 ^ 32
    → transfer_length < 2 ^ 16
    → (in' out' : CommandRing) × (scsi_read_10 answers in_bell out_bell bufs lba transfer_length
          in_ring out_ring
        ≡ (check_csw (received 13 (answers.incoming (read_10_cbw lba transfer_length) 1))
            >> ok (sectors disk lba transfer_length, in', out')))
      × Ahead in_ring in' 2
      × Ahead out_ring out' 1
scsi_read_10_lem answers in_bell out_bell bufs in_ring out_ring disk lba n s d hl hn =
    let (in', out', runs, in_ahead, out_ahead) =
      read_10-exchange answers in_bell out_bell bufs in_ring out_ring s lba n in
    (
      in',
      out',
      runs
          ∙ ap
              (λ (bytes : List ℕ).
                check_csw (received 13 (answers.incoming (read_10_cbw lba n) 1))
                >> ok (bytes, in', out'))
              (reads_sectors answers disk lba n d hl hn),
      in_ahead,
      out_ahead,
    )

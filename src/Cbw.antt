-- ===== src/Cbw.antt =====
-- `CommandBlockWrapper` of src/cbw.rs.
use mushix.Prelude.{ℕ, ◌*◌, List, ◌∷◌, ◌++◌, set, replicate}
use mushix.Word.{u8, shr}
use mushix.Bytes.{le_bytes_32}

pub record CommandBlockWrapper : Type 0 where
  pub signature : ℕ
  pub tag : ℕ
  pub data_transfer_length : ℕ
  pub flags : ℕ
  pub lun : ℕ
  pub cb_length : ℕ
  pub command_block : List ℕ

abbrev signature_usbc : ℕ
signature_usbc = 0x43425355

abbrev flag_data_in : ℕ
flag_data_in = 0x80

-- The assignments to `cbw.command_block`.
abbrev read_10_block : ℕ → ℕ → List ℕ
read_10_block lba transfer_length =
    let b = set (replicate 16 0) 0 0x28 in
    let b = set b 1 0 in
    let b = set b 2 (u8 (shr 32 lba 24)) in
    let b = set b 3 (u8 (shr 32 lba 16)) in
    let b = set b 4 (u8 (shr 32 lba 8)) in
    let b = set b 5 (u8 lba) in
    let b = set b 6 0 in
    let b = set b 7 (u8 (shr 16 transfer_length 8)) in
    let b = set b 8 (u8 transfer_length) in set b 9 0

-- The product is below 2 ^ 25, so it does not overflow.
unfoldable pub new_read_10 : ℕ → ℕ → ℕ → CommandBlockWrapper
new_read_10 lba transfer_length tag = record {
  signature = signature_usbc;
  tag = tag;
  data_transfer_length = transfer_length * 512;
  flags = flag_data_in;
  lun = 0;
  cb_length = 10;
  command_block = read_10_block lba transfer_length;
}

-- The 31 bytes of the packed structure.
abbrev pub bytes_of : CommandBlockWrapper → List ℕ
bytes_of c =
    le_bytes_32 c.signature
    ++ le_bytes_32 c.tag
    ++ le_bytes_32 c.data_transfer_length
    ++ (c.flags ∷ c.lun ∷ c.cb_length ∷ c.command_block)

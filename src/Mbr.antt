-- ===== src/Mbr.antt =====
-- The analysis of a disk's first sector in src/xhci.rs: `analyze_sector_zero` and what it calls. The
-- lines that it prints are its result.
pub mod Cylinder
mod Examples
use mushix.Prelude.{
  ℕ, zero, suc, ◌+◌, ◌*◌, ◌/◌, ◌^◌, bit_and, bit_or, Bool, true, false, not, ◌||◌, ◌&&◌, List, [],
  ◌∷◌, ◌++◌, length, drop, take, get_or, Option, none, some, ltb, leb, ◌==◌, if◌then◌else◌, String,
}
use mushix.Word.{shl, u8}
use mushix.Bytes.{from_le_16, from_le_32}

-- The values that `analyze_partition_entry` prints.
pub record PartitionEntry : Type 0 where
  pub boot_flag : ℕ
  pub start_head : ℕ
  pub start_sector : ℕ
  pub start_cylinder : ℕ
  pub partition_type : ℕ
  pub end_head : ℕ
  pub end_sector : ℕ
  pub end_cylinder : ℕ
  pub lba_start : ℕ
  pub sector_count : ℕ

abbrev byte : List ℕ → ℕ → ℕ
byte buf i = get_or buf i 0

-- `((high & 0xC0) << 2) | low`, in `u8` as the code has it.
pub cylinder : ℕ → ℕ → ℕ
cylinder high low = bit_or (shl 8 (bit_and high 0xc0) 2) low

pub analyze_partition_entry : List ℕ → Option PartitionEntry
analyze_partition_entry entry =
    if ltb (length entry) 16
    then none
    else some (record {
      boot_flag = byte entry 0;
      start_head = byte entry 1;
      start_sector = bit_and (byte entry 2) 0x3f;
      start_cylinder = cylinder (byte entry 2) (byte entry 3);
      partition_type = byte entry 4;
      end_head = byte entry 5;
      end_sector = bit_and (byte entry 6) 0x3f;
      end_cylinder = cylinder (byte entry 6) (byte entry 7);
      lba_start = from_le_32 entry 8;
      sector_count = from_le_32 entry 12;
    })

pub size_mb : ℕ → ℕ
size_mb sector_count = sector_count * 512 / (1024 * 1024)

pub partition_type_name : ℕ → String
partition_type_name t =
    if t == 0x00
    then "Empty"
    else if t == 0x01
    then "FAT12"
    else if t == 0x04
    then "FAT16 <32MB"
    else if t == 0x05
    then "Extended"
    else if t == 0x06
    then "FAT16"
    else if t == 0x07
    then "NTFS/HPFS/exFAT"
    else if t == 0x0b
    then "FAT32"
    else if t == 0x0c
    then "FAT32 LBA"
    else if t == 0x0e
    then "FAT16 LBA"
    else if t == 0x0f
    then "Extended LBA"
    else if t == 0x82
    then "Linux Swap"
    else if t == 0x83
    then "Linux"
    else if t == 0xee
    then "GPT Protective"
    else "Unknown"

-- `is_ascii_graphic() || == b' '`
abbrev pub is_text : ℕ → Bool
is_text byte = leb 0x20 byte && leb byte 0x7e

-- The string so far is kept as a list of bytes, with the offset at which it starts.
abbrev report : ℕ → List ℕ → List (ℕ × List ℕ) → List (ℕ × List ℕ)
report start_offset current found =
    if leb 4 (length current) then (start_offset, current) ∷ found else found

abbrev start_at : ℕ → ℕ → List ℕ → ℕ
start_at i start_offset current = if length current == 0 then i else start_offset

-- The loop of `find_ascii_strings` from offset `i`: the strings that it prints.
pub find_from : ℕ → List ℕ → (start_offset : ℕ) → (current : List ℕ) → List (ℕ × List ℕ)
find_from i [] start_offset current = report start_offset current []
find_from i (b ∷ bs) start_offset current =
    let text = find_from (i + 1) bs (start_at i start_offset current) (current ++ (b ∷ [])) in
    let other = find_from (i + 1) bs start_offset [] in
    if is_text b then text else report start_offset current other

pub find_ascii_strings : List ℕ → List (ℕ × List ℕ)
find_ascii_strings buf = find_from 0 buf 0 []

pub record SectorZero : Type 0 where
  pub valid : Bool
  pub partitions : List (Option PartitionEntry)
  pub strings : List (ℕ × List ℕ)

-- The slice of 16 bytes at an offset.
abbrev slice_16 : List ℕ → ℕ → List ℕ
slice_16 buf offset = take 16 (drop offset buf)

-- With at least 512 bytes the four slices are in range.
pub analyze_sector_zero : List ℕ → Option SectorZero
analyze_sector_zero buf =
    if ltb (length buf) 512
    then none
    else some (record {
      valid = from_le_16 buf 510 == 0xaa55;
      partitions =
          analyze_partition_entry (slice_16 buf 446)
          ∷ analyze_partition_entry (slice_16 buf 462)
          ∷ analyze_partition_entry (slice_16 buf 478)
          ∷ analyze_partition_entry (slice_16 buf 494)
          ∷ [];
      strings = find_ascii_strings buf;
    })

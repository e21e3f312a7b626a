-- ===== src/X86.antt =====
-- src/x86.rs: page table entries and the index of an address in a table.
pub mod Index
pub mod Page
pub mod Mapping
pub mod Cache
pub mod Segments
pub mod Interrupts
mod Examples
use mushix.Prelude.{
  ℕ, ◌+◌, ◌-◌, ◌*◌, ◌/◌, ◌%◌, ◌^◌, bit_and, bit_or, Bool, true, false, not, ◌==◌, if◌then◌else◌,
  Result, ok, err,
}
use mushix.Word.{shl, shr, bit_not}

abbrev pub attr_mask : ℕ
attr_mask = 0xfff

abbrev attr_present : ℕ
attr_present = shl 64 1 0

abbrev attr_writable : ℕ
attr_writable = shl 64 1 1

abbrev attr_write_through : ℕ
attr_write_through = shl 64 1 3

abbrev attr_cache_disable : ℕ
attr_cache_disable = shl 64 1 4

pub data PageAttr : Type 0 where
  not_present : PageAttr
  read_write_kernel : PageAttr
  read_write_io : PageAttr

-- `attr as u64`
pub attr_bits : PageAttr → ℕ
attr_bits not_present = 0
attr_bits read_write_kernel = bit_or attr_present attr_writable
attr_bits read_write_io =
    bit_or (bit_or (bit_or attr_present attr_writable) attr_write_through) attr_cache_disable

-- An `Entry` is its `value`.
pub is_present : ℕ → Bool
is_present value = not (bit_and value (shl 64 1 0) == 0)

pub is_writable : ℕ → Bool
is_writable value = not (bit_and value (shl 64 1 1) == 0)

pub is_user : ℕ → Bool
is_user value = not (bit_and value (shl 64 1 2) == 0)

-- `table` and `table_mut`: the address of the next table.
pub table : ℕ → Result ℕ
table value =
    if is_present value then ok (bit_and value (bit_not 64 attr_mask)) else err "Page not found"

-- `set_page` gives the new entry; on an error the entry is kept.
pub set_page : (phys : ℕ) → PageAttr → Result ℕ
set_page phys attr =
    if not (bit_and phys attr_mask == 0)
    then err "phys is not aligned"
    else ok (bit_or phys (attr_bits attr))

-- `populate` with the address `next` of the zeroed table from the allocator.
pub populate : (value next : ℕ) → Result ℕ
populate value next =
    if is_present value
    then err "page is already populated"
    else ok (bit_or next (attr_bits read_write_kernel))

pub ensure_populated : (value next : ℕ) → Result ℕ
ensure_populated value next = if is_present value then ok value else populate value next

-- `Table::<LEVEL, _>::index_shift` and `calc_index`
pub index_shift : ℕ → ℕ
index_shift level = (level - 1) * 9 + 12

pub calc_index : (level addr : ℕ) → ℕ
calc_index level addr = bit_and (shr 64 addr (index_shift level)) 0b111111111

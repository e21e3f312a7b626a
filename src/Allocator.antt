-- ===== src/Allocator.antt =====
-- The first-fit allocator of src/allocator.rs. The list of headers, linked by `next_header`, is a
-- list of blocks, each with the address at which its header stands.
pub mod Pow2
pub mod Provide
pub mod Request
pub mod Blocks
pub mod Heap
pub mod Safety
pub mod Reuse
pub mod Mmap
mod Examples
use mushix.Prelude.{
  ℕ, zero, suc, ◌+◌, ◌-◌, ◌*◌, ◌/◌, ◌^◌, max, Bool, true, false, not, ◌||◌, Option, none, some,
  List, [], ◌∷◌, ◌++◌, bit_and, leb, ltb, ◌==◌, if◌then◌else◌, Result, ok, err, panic, assert,
  ◌>>=◌, ◌>>◌,
}
use mushix.Word.{bit_not, u64, add64, sub64}
use mushix.Uefi.{EfiMemoryDescriptor, is_conventional}

-- `usize::BITS - x.leading_zeros()`: the digits of `x`, which has at most `fuel` of them.
pub bit_length : ℕ → ℕ → ℕ
bit_length zero x = 0
bit_length (suc fuel) x = if x == 0 then 0 else suc (bit_length fuel (x / 2))

-- `v.wrapping_sub(1)`
abbrev pub wrapping_pred : ℕ → ℕ
wrapping_pred v = if v == 0 then 2 ^ 64 - 1 else v - 1

-- `1usize.checked_shl(n)` fails from 64 on.
pub round_up_to_nearest_pow2 : ℕ → Result ℕ
round_up_to_nearest_pow2 v =
    let n = bit_length 64 (wrapping_pred v) in if ltb n 64 then ok (2 ^ n) else err "Out of range"

-- `struct Header` with its own address.
pub record Header : Type 0 where
  pub addr : ℕ
  pub size : ℕ
  pub is_allocated : Bool

abbrev pub header_size : ℕ
header_size = 32

abbrev pub can_provide : Header → ℕ → ℕ → Bool
can_provide h size align = leb (add64 (add64 size (header_size * 2)) align) h.size

abbrev pub end_addr : Header → ℕ
end_addr h = add64 h.addr h.size

-- What `provide` leaves in place of the header, in list order, and the pointer that it returns.
pub record Provided : Type 0 where
  pub blocks : List Header
  pub ptr : ℕ

abbrev pub allocated_addr : Header → ℕ → ℕ → ℕ
allocated_addr h size align = bit_and (sub64 (end_addr h) size) (bit_not 64 (sub64 align 1))

abbrev pub header_for_allocated : Header → ℕ → ℕ → Header
header_for_allocated h size align = record {
  addr = sub64 (allocated_addr h size align) header_size;
  size = add64 size header_size;
  is_allocated = true;
}

abbrev pub header_for_padding : Header → Header → Header
header_for_padding h a = record {
  addr = end_addr a;
  size = sub64 (end_addr h) (end_addr a);
  is_allocated = false;
}

-- There is a padding block if the allocated one does not end where the old one did.
abbrev pub padding_of : Header → Header → List Header
padding_of h a = if end_addr a == end_addr h then [] else header_for_padding h a ∷ []

abbrev pub size_used : Header → Header → ℕ
size_used h a =
    if end_addr a == end_addr h then a.size else add64 a.size (header_for_padding h a).size

abbrev pub carve : Header → ℕ → ℕ → Provided
carve h size align =
    let a = header_for_allocated h size align in
    record {
      blocks = record h { size = sub64 h.size (size_used h a) } ∷ a ∷ padding_of h a;
      ptr = allocated_addr h size align;
    }

-- The `else` branch of `provide`, its `assert!` included; `size` and `align` are rounded already.
pub split : Header → ℕ → ℕ → Result (Option Provided)
split h size align = do
  assert (leb (add64 (size_used h (header_for_allocated h size align)) header_size) h.size)
      "self.size >= size_used + HEADER_SIZE"
  ok (some (carve h size align))

provide_rounded : Header → ℕ → ℕ → Result (Option Provided)
provide_rounded h size align =
    if h.is_allocated || not (can_provide h size align) then ok none else split h size align

-- `ok none` is the `None` of the code.
pub provide : Header → ℕ → ℕ → Result (Option Provided)
provide h size align = elim (round_up_to_nearest_pow2 size) [
  | ok s ↦ provide_rounded h (max s header_size) (max align header_size)
  | err e ↦ ok none
  | panic e ↦ panic e
]

-- `FirstFitAllocator::first_header`, as the list of blocks that it leads to.
abbrev pub Heap : Type 0
Heap = List Header

-- What `alloc_with_options` makes of the rest of the list when `provide` has answered.
abbrev pub or_else :
    Header → Heap → Option Provided → Result (Option (ℕ × Heap)) → Result (Option (ℕ × Heap))
or_else h hs (some p) later = ok (some (p.ptr, p.blocks ++ hs))
or_else h hs none (ok (some (ptr, hs'))) = ok (some (ptr, h ∷ hs'))
or_else h hs none (ok none) = ok none
or_else h hs none (err e) = err e
or_else h hs none (panic e) = panic e

-- `ok none` is the null pointer, with the heap unchanged.
pub alloc_with_options : Heap → ℕ → ℕ → Result (Option (ℕ × Heap))
alloc_with_options [] size align = ok none
alloc_with_options (h ∷ hs) size align =
    let later = alloc_with_options hs size align in
    do p ← provide h size align; or_else h hs p later

-- `dealloc`: the header in front of the pointer is marked free. A pointer with no header in front
-- of it is outside the contract of `GlobalAlloc`, and is `none` here.
pub mark_free : Heap → ℕ → Option Heap
mark_free [] addr = none
mark_free (h ∷ hs) addr =
    let later = mark_free hs addr in
    if h.addr == addr
    then some (record h { is_allocated = false } ∷ hs)
    else (elim later [ none ↦ none | some hs' ↦ some (h ∷ hs') ])

pub dealloc : Heap → ℕ → Option Heap
dealloc hs ptr = mark_free hs (sub64 ptr header_size)

-- The region of a descriptor as a free block; page 0 is left out.
abbrev pub free_block : EfiMemoryDescriptor → Header
free_block desc =
    let pages = u64 (desc.number_of_pages * 4096) in
    record {
      addr = if desc.physical_start == 0 then 4096 else desc.physical_start;
      size = if desc.physical_start == 0 then pages - 4096 else pages;
      is_allocated = false;
    }

-- A region of at most one page is dropped.
pub add_free_from_descriptor : Heap → EfiMemoryDescriptor → Heap
add_free_from_descriptor hs desc =
    if leb (free_block desc).size 4096 then hs else free_block desc ∷ hs

-- Each descriptor of conventional memory, in the order of the map.
pub init_with_mmap : Heap → List EfiMemoryDescriptor → Heap
init_with_mmap hs [] = hs
init_with_mmap hs (e ∷ es) =
    init_with_mmap (if is_conventional e.memory_type then add_free_from_descriptor hs e else hs) es

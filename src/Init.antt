-- ===== src/Init.antt =====
-- src/init.rs: the first page tables and the size of memory.
pub mod Paging
pub mod Memory
mod Examples
use mushix.Prelude.{
  ℕ, ◌+◌, ◌*◌, ◌/◌, ◌%◌, ◌^◌, max, Bool, true, false, ◌||◌, List, [], ◌∷◌, if◌then◌else◌, Result,
  ok, err, panic, ◌>>=◌, expect_ok,
}
use mushix.Word.{add64, u64}
use mushix.Uefi.{
  EfiMemoryType, EfiMemoryDescriptor, is_conventional, loader_code, loader_data,
  conventional_memory,
}
use mushix.X86.{PageAttr, not_present, read_write_kernel, read_write_io}
use mushix.X86.Mapping.{Table, zeroed, create_mapping}

-- `CONVENTIONAL_MEMORY | LOADER_CODE | LOADER_DATA`
abbrev pub is_usable : EfiMemoryType → Bool
is_usable conventional_memory = true
is_usable loader_code = true
is_usable loader_data = true
is_usable _ = false

-- The loop over the memory map, from the end that is known so far.
pub end_of_mem_from : ℕ → List EfiMemoryDescriptor → ℕ
end_of_mem_from end_of_mem [] = end_of_mem
end_of_mem_from end_of_mem (e ∷ es) =
    end_of_mem_from
      (if is_usable e.memory_type
        then max end_of_mem (add64 e.physical_start (u64 (e.number_of_pages * 4096)))
        else end_of_mem)
      es

pub end_of_mem : List EfiMemoryDescriptor → ℕ
end_of_mem = end_of_mem_from 0x1_0000_0000

-- `init_pading`: the table that goes to CR3. `alloc` gives the addresses of the tables that the first and
-- the second call box.
pub init_pading : (alloc : ℕ → ℕ → ℕ) → List EfiMemoryDescriptor → Result (Table 4)
init_pading alloc memory_map = do
  t ←
      expect_ok (create_mapping (alloc 0) 0 (end_of_mem memory_map) 0 read_write_kernel (zeroed 4))
        "failed to create initial page mapping"
  expect_ok (create_mapping (alloc 1) 0 4096 0 not_present t) "Failed to unmap page 0"

-- `init_allocator`: the pages of conventional memory, and the size that is printed.
pub total_memory_pages_from : ℕ → List EfiMemoryDescriptor → ℕ
total_memory_pages_from total [] = total
total_memory_pages_from total (e ∷ es) =
    total_memory_pages_from
      (if is_conventional e.memory_type then add64 total e.number_of_pages else total) es

pub total_memory_size_mib : List EfiMemoryDescriptor → ℕ
total_memory_size_mib memory_map = u64 (total_memory_pages_from 0 memory_map * 4096) / 1024 / 1024

-- ===== src/Init/Examples.antt =====
-- A memory map of a machine with 6 GiB.
use mushix.Prelude.{
  ℕ, ◌+◌, ◌*◌, ◌%◌, ◌^◌, ◌≡◌, refl, arith, bit_or, List, [], ◌∷◌, ltb, if◌then◌else◌, ◌==◌, ok,
  ◌>>=◌,
}
use mushix.Uefi.{EfiMemoryDescriptor, conventional_memory, reserved}
use mushix.X86.{read_write_kernel, attr_bits}
use mushix.X86.Mapping.{entry_of}
use mushix.Init.{
  end_of_mem, end_of_mem_from, init_pading, total_memory_size_mib, total_memory_pages_from,
}
use mushix.Init.Paging.{init_pading_lem}

abbrev low : EfiMemoryDescriptor
low = record {
  memory_type = conventional_memory;
  physical_start = 0x100000;
  virtual_start = 0;
  number_of_pages = 0x1000;
  attribute = 0;
}

abbrev high : EfiMemoryDescriptor
high = record {
  memory_type = conventional_memory;
  physical_start = 2 ^ 32;
  virtual_start = 0;
  number_of_pages = 0x80000;
  attribute = 0;
}

abbrev device : EfiMemoryDescriptor
device = record {
  memory_type = reserved;
  physical_start = 2 ^ 40;
  virtual_start = 0;
  number_of_pages = 16;
  attribute = 0;
}

abbrev memory_map : List EfiMemoryDescriptor
memory_map = low ∷ high ∷ device ∷ []

ends : end_of_mem memory_map ≡ 6 * 2 ^ 30
unfolding end_of_mem end_of_mem_from
ends = refl

printed : total_memory_size_mib memory_map ≡ 2064
unfolding total_memory_size_mib total_memory_pages_from
printed = refl

abbrev alloc : ℕ → ℕ → ℕ
alloc call n = 0x100000 + n % 256 * 4096

init_pading_lem_example :
    (init_pading alloc memory_map >>= λ t. ok (entry_of 3 t 0x7000))
    ≡ ok (
        if 0x7000 == 0
        then 0
        else if ltb 0x7000 (end_of_mem memory_map)
        then bit_or 0x7000 (attr_bits read_write_kernel)
        else 0)
init_pading_lem_example =
    init_pading_lem alloc memory_map 0x7000 (λ call n. omega arith) (λ call n. omega arith)
      (omega (arith, ends)) refl (omega arith)

-- ===== src/Init/Paging.antt =====
-- What the first page tables translate.
use mushix.Prelude.{
  ℕ, ◌+◌, ◌-◌, ◌%◌, ◌^◌, ◌<◌, ◌≤◌, ◌≡◌, refl, ap, arith, false, List, ltb, ◌==◌, if◌then◌else◌, ok,
  ◌>>=◌, >>=-eq-ok, bit_or, ℕ_discrete,
}
use mushix.Uefi.{EfiMemoryDescriptor}
use mushix.X86.{not_present, read_write_kernel, attr_bits}
use mushix.X86.Mapping.{zeroed, entry_of, create_mapping}
use mushix.X86.Mapping.Translation.{
  create_mapping_lem, covers, mapped, entry_of-zeroed, mapped-not_present,
}
use mushix.Init.{end_of_mem, init_pading}

-- With tables boxed at multiples of 4096 and memory within 48 bits, `init_pading` succeeds. Page 0 is not
-- mapped, every other page below the end of memory is mapped to itself, present and writable for
-- the kernel, and no other page is mapped.
pub init_pading_lem :
    (alloc : ℕ → ℕ → ℕ) (memory_map : List EfiMemoryDescriptor) (addr : ℕ)
    → ((call n : ℕ) → alloc call n % 4096 ≡ 0)
    → ((call n : ℕ) → alloc call n < 2 ^ 64)
    → end_of_mem memory_map ≤ 2 ^ 48
    → addr % 4096 ≡ 0
    → addr < 2 ^ 48
    → (init_pading alloc memory_map >>= λ t. ok (entry_of 3 t addr))
      ≡ ok (
          if addr == 0
          then 0
          else if ltb addr (end_of_mem memory_map)
          then bit_or addr (attr_bits read_write_kernel)
          else 0)
unfolding init_pading
init_pading_lem alloc memory_map addr aligned small bound page canonical =
    let (t, run, at) =
      >>=-eq-ok (create_mapping (alloc 0) 0 (end_of_mem memory_map) 0 read_write_kernel (zeroed 4))
        (λ t. entry_of 3 t addr)
        (create_mapping_lem (alloc 0) 0 (end_of_mem memory_map) 0 read_write_kernel (zeroed 4) addr
          (aligned 0) (small 0) refl refl page (omega arith) bound canonical (omega arith)
          (omega arith)) in
    let (t', run', at') =
      >>=-eq-ok (create_mapping (alloc 1) 0 4096 0 not_present t) (λ t. entry_of 3 t addr)
        (create_mapping_lem (alloc 1) 0 4096 0 not_present t addr (aligned 1) (small 1) refl refl
          page (omega arith) (omega arith) canonical (omega arith) (omega arith)) in
    rw (run, run', at', at, entry_of-zeroed 3 addr) (by_page (ℕ_discrete addr 0))
  where
    by_page :
        Dec (addr ≡ 0)
        → ok (
            if covers 0 4096 addr
            then mapped 0 0 not_present addr
            else if covers 0 (end_of_mem memory_map) addr
            then mapped 0 0 read_write_kernel addr
            else 0)
          ≡ ok (
              if addr == 0
              then 0
              else if ltb addr (end_of_mem memory_map)
              then bit_or addr (attr_bits read_write_kernel)
              else 0)
    by_page (yes first) = rw first (ap ok mapped-not_present)
    by_page (no other) =
        let behind : covers 0 4096 addr ≡ false = ground arith in
        let nonzero : (addr == 0) ≡ false = ground arith in
        let below : covers 0 (end_of_mem memory_map) addr ≡ ltb addr (end_of_mem memory_map) =
          ground arith in
        let self : 0 + (addr - 0) ≡ addr = omega arith in rw (behind, below, nonzero, self) refl

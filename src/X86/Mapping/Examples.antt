-- ===== src/X86/Mapping/Examples.antt =====
-- A mapping over the boundary of two page tables.
use mushix.Prelude.{ℕ, ◌+◌, ◌*◌, ◌%◌, ◌≡◌, refl, arith, ok, ◌>>=◌, if◌then◌else◌}
use mushix.X86.{
  read_write_kernel, attr_bits, calc_index, index_shift, is_present, set_page, populate,
  ensure_populated, table,
}
use mushix.X86.Mapping.{zeroed, entry_of, create_mapping, fill_table, fill_entry, next_level}
use mushix.X86.Mapping.Translation.{covers, mapped, create_mapping_lem}

abbrev alloc : ℕ → ℕ
alloc n = 0x100000 + n % 256 * 4096

-- The page behind the boundary, and the first page behind the range.
two_tables :
    ((create_mapping alloc 0x1fe000 0x202000 0x5000 read_write_kernel (zeroed 4) >>= λ t.
    ok (entry_of 3 t 0x201000))
      ≡ ok 0x8003)
    × ((create_mapping alloc 0x1fe000 0x202000 0x5000 read_write_kernel (zeroed 4) >>= λ t.
          ok (entry_of 3 t 0x202000))
        ≡ ok 0)
unfolding create_mapping fill_table fill_entry entry_of next_level calc_index index_shift is_present
    set_page populate ensure_populated table attr_bits
two_tables = (refl, refl)

create_mapping_lem_example :
    (create_mapping alloc 0x1fe000 0x202000 0x5000 read_write_kernel (zeroed 4) >>= λ t.
    ok (entry_of 3 t 0x201000))
    ≡ ok (
        if covers 0x1fe000 0x202000 0x201000
        then mapped 0x1fe000 0x5000 read_write_kernel 0x201000
        else entry_of 3 (zeroed 4) 0x201000)
create_mapping_lem_example =
    create_mapping_lem alloc 0x1fe000 0x202000 0x5000 read_write_kernel (zeroed 4) 0x201000
      (λ n. omega arith) (λ n. omega arith) refl refl refl (omega arith) (omega arith) (omega arith)
      (omega arith) (omega arith)

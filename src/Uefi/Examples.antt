-- ===== src/Uefi/Examples.antt =====
-- A map of three descriptors and three configuration tables.
use mushix.Prelude.{ℕ, ◌*◌, ◌≡◌, refl, arith, [], ◌∷◌, get_elem?, some, ◌==◌, if◌then◌else◌}
use mushix.Uefi.{
  EfiMemoryDescriptor, conventional_memory, MemoryMapHolder, next, items_from, EfiGuid,
  EfiConfigurationTable, efi_acpi_table_guid, lookup_config_table, acpi_table, lookup_from,
}
use mushix.Uefi.MemoryMap.{item, iter_lem}

abbrev descriptor : ℕ → EfiMemoryDescriptor
descriptor ofs = record {
  memory_type = conventional_memory;
  physical_start = ofs * 4096;
  virtual_start = 0;
  number_of_pages = 1;
  attribute = 0;
}

abbrev map : MemoryMapHolder
map = record {
  descriptor_at = descriptor;
  memory_map_size = 144;
  map_key = 7;
  descriptor_size = 48;
  descriptor_version = 1;
}

three : items_from 144 map 0 ≡ descriptor 0 ∷ descriptor 48 ∷ descriptor 96 ∷ []
unfolding items_from next
three = refl

iter_lem_example : get_elem? (items_from map.memory_map_size map 0) 2 ≡ item map 0 2
iter_lem_example = iter_lem map 2 (omega arith) (omega arith)

abbrev other_guid : EfiGuid
other_guid = record { data0 = 1; data1 = 2; data2 = 3; data3 = 4 ∷ [] }

abbrev tables : ℕ → EfiConfigurationTable
tables i = record {
  vendor_guid = if i == 1 then efi_acpi_table_guid else other_guid;
  vendor_table = 0x1000 * i;
}

finds : acpi_table 3 tables ≡ some 0x1000
unfolding acpi_table lookup_config_table lookup_from
finds = refl

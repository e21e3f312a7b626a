-- ===== src/Uefi.antt =====
-- src/uefi.rs: the memory map that the firmware hands over, configuration tables, the frame buffer,
-- and the exit from the boot services.
pub mod MemoryMap
pub mod ConfigTable
pub mod ExitLoop
mod Examples
use mushix.Prelude.{
  ℕ, zero, suc, ◌+◌, Bool, true, false, ◌&&◌, List, [], ◌∷◌, Option, none, some, Option-cases, leb,
  ◌==◌, if◌then◌else◌, Result, ok, err, panic, ◌>>=◌,
}
use mushix.Word.{add64}

-- `enum EfiMemoryType`, in the order of its numbers.
pub data EfiMemoryType : Type 0 where
  reserved loader_code loader_data boot_services_code boot_services_data : EfiMemoryType
  runtime_services_code runtime_services_data conventional_memory unusable_memory : EfiMemoryType
  acpi_reclaim_memory acpi_memory_nvs memory_mapped_io memory_mapped_io_port_space : EfiMemoryType
  pal_code persistent_memory : EfiMemoryType

-- `e.memory_type() == EfiMemoryType::CONVENTIONAL_MEMORY`
abbrev pub is_conventional : EfiMemoryType → Bool
is_conventional conventional_memory = true
is_conventional _ = false

pub record EfiMemoryDescriptor : Type 0 where
  pub memory_type : EfiMemoryType
  pub physical_start : ℕ
  pub virtual_start : ℕ
  pub number_of_pages : ℕ
  pub attribute : ℕ

-- The buffer as the descriptors that stand at its offsets, and what the firmware writes beside it.
pub record MemoryMapHolder : Type 0 where
  pub descriptor_at : ℕ → EfiMemoryDescriptor
  pub memory_map_size : ℕ
  pub map_key : ℕ
  pub descriptor_size : ℕ
  pub descriptor_version : ℕ

-- `MemoryMapIterator::next`: the item and the next offset.
pub next : MemoryMapHolder → ℕ → Option EfiMemoryDescriptor × ℕ
next map ofs =
    if leb map.memory_map_size ofs
    then (none, ofs)
    else (some (map.descriptor_at ofs), add64 ofs map.descriptor_size)

abbrev push_item : Option EfiMemoryDescriptor → List EfiMemoryDescriptor → List EfiMemoryDescriptor
push_item none rest = []
push_item (some e) rest = e ∷ rest

-- `for e in memory_map.iter()`, on fuel: what the loop is given.
pub items_from : (fuel : ℕ) → MemoryMapHolder → ℕ → List EfiMemoryDescriptor
items_from zero map ofs = []
items_from (suc fuel) map ofs =
    let rest = items_from fuel map (next map ofs).1 in push_item (next map ofs).0 rest

-- `EfiGuid`, whose parts are compared in turn.
pub record EfiGuid : Type 0 where
  pub data0 : ℕ
  pub data1 : ℕ
  pub data2 : ℕ
  pub data3 : List ℕ

abbrev same_list : List ℕ → List ℕ → Bool
same_list [] [] = true
same_list [] (y ∷ ys) = false
same_list (x ∷ xs) [] = false
same_list (x ∷ xs) (y ∷ ys) = (x == y) && same_list xs ys

abbrev pub same_guid : EfiGuid → EfiGuid → Bool
same_guid a b =
    (a.data0 == b.data0)
    && ((a.data1 == b.data1) && ((a.data2 == b.data2) && same_list a.data3 b.data3))

abbrev pub efi_acpi_table_guid : EfiGuid
efi_acpi_table_guid = record {
  data0 = 0x8868e871;
  data1 = 0xe4f1;
  data2 = 0x11d3;
  data3 = 0xbc ∷ 0x22 ∷ 0x00 ∷ 0x80 ∷ 0xc7 ∷ 0x3c ∷ 0x88 ∷ 0x81 ∷ [];
}

pub record EfiConfigurationTable : Type 0 where
  pub vendor_guid : EfiGuid
  pub vendor_table : ℕ

-- `for i in 0..self.number_of_table_entries`, with `left` entries to go.
pub lookup_from :
    (tables : ℕ → EfiConfigurationTable) (guid : EfiGuid) (left i : ℕ)
    → Option EfiConfigurationTable
lookup_from tables guid zero i = none
lookup_from tables guid (suc left) i =
    if same_guid (tables i).vendor_guid guid
    then some (tables i)
    else lookup_from tables guid left (i + 1)

pub lookup_config_table :
    (number_of_table_entries : ℕ) (configuration_table : ℕ → EfiConfigurationTable)
    → EfiGuid
    → Option EfiConfigurationTable
lookup_config_table number_of_table_entries configuration_table guid =
    lookup_from configuration_table guid number_of_table_entries 0

pub acpi_table :
    (number_of_table_entries : ℕ) (configuration_table : ℕ → EfiConfigurationTable) → Option ℕ
acpi_table number_of_table_entries configuration_table =
    elim (lookup_config_table number_of_table_entries configuration_table efi_acpi_table_guid) [
      | none ↦ none
      | some t ↦ some t.vendor_table
    ]

-- `enum EfiStatus` has this value only, so that its derived comparison holds of any two statuses.
pub data EfiStatus : Type 0 where
  success : EfiStatus

abbrev pub same_status : EfiStatus → EfiStatus → Bool
same_status success success = true

-- The firmware: its two calls on its state. `get_memory_map` is told the capacity that the holder's
-- size stands for, and writes the holder.
pub record BootServices {ℓ} (S : Type ℓ) : Type ℓ where
  pub get_memory_map : S → MemoryMapHolder → EfiStatus × MemoryMapHolder × S
  pub exit_boot_services : S → (map_key : ℕ) → EfiStatus × S

module _ {ℓ} {S : Type ℓ} (boot_services : BootServices S) where
  -- `exit_from_efi_boot_services`, on fuel for the rounds.
  pub exit_from_efi_boot_services : (fuel : ℕ) → S → MemoryMapHolder → Result (MemoryMapHolder × S)
  exit_from_efi_boot_services zero s map = panic "out of rounds"
  exit_from_efi_boot_services (suc fuel) s map =
      let (got, filled, s') = boot_services.get_memory_map s map in
      let (left, s'') = boot_services.exit_boot_services s' filled.map_key in
      let again = exit_from_efi_boot_services fuel s'' filled in
      if same_status got success
      then (if same_status left success then ok (filled, s'') else again)
      else panic "assertion `left == right` failed"

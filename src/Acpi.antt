-- ===== src/Acpi.antt =====
-- src/acpi.rs: the tables behind the root pointer. Memory is a function from an address to a byte.
pub mod Tables
mod Examples
use mushix.Prelude.{
  ℕ, zero, suc, ◌+◌, ◌-◌, ◌*◌, ◌/◌, ◌^◌, Bool, true, false, not, ◌&&◌, List, [], ◌∷◌, Option, none,
  some, leb, ltb, ◌==◌, if◌then◌else◌, Result, ok, err, panic, ◌>>=◌,
}

abbrev pub Memory : Type 0
Memory = ℕ → ℕ

-- Little-endian words of `n` bytes.
abbrev pub word : ℕ → Memory → ℕ → ℕ
word zero mem addr = 0
word (suc n) mem addr = mem addr + 2 ^ 8 * word n mem (addr + 1)

-- The length in a header, and its four bytes of signature.
abbrev pub table_length : Memory → ℕ → ℕ
table_length mem table = word 4 mem (table + 4)

abbrev pub signature : Memory → ℕ → List ℕ
signature mem table = mem table ∷ mem (table + 1) ∷ mem (table + 2) ∷ mem (table + 3) ∷ []

abbrev pub same_bytes : List ℕ → List ℕ → Bool
same_bytes [] [] = true
same_bytes [] (y ∷ ys) = false
same_bytes (x ∷ xs) [] = false
same_bytes (x ∷ xs) (y ∷ ys) = (x == y) && same_bytes xs ys

abbrev pub xsdt_header_size : ℕ
xsdt_header_size = 36

-- The bytes behind a header of `size` bytes; `usize` subtraction panics below it.
abbrev pub length_behind : Memory → (table size : ℕ) → Result ℕ
length_behind mem table size =
    if ltb (table_length mem table) size
    then panic "attempt to subtract with overflow"
    else ok (table_length mem table - size)

-- `Xsdt::num_of_entries`
pub num_of_entries : Memory → ℕ → Result ℕ
num_of_entries mem xsdt = do bytes ← length_behind mem xsdt xsdt_header_size; ok (bytes / 8)

pub entry : Memory → ℕ → ℕ → ℕ
entry mem xsdt index = word 8 mem (xsdt + xsdt_header_size + 8 * index)

-- `XsdtIterator::next`: the item and the next index.
pub next : Memory → ℕ → ℕ → Result (Option ℕ × ℕ)
next mem xsdt index = do
  n ← num_of_entries mem xsdt
  if leb n index then ok (none, index) else ok (some (entry mem xsdt index), index + 1)

abbrev found_or : Memory → List ℕ → Option ℕ × ℕ → Result (Option ℕ) → Result (Option ℕ)
found_or mem sig (none, index) rest = ok none
found_or mem sig (some table, index) rest =
    if same_bytes (signature mem table) sig then ok (some table) else rest

-- `find_table`, on fuel.
pub find_from : (fuel : ℕ) → Memory → ℕ → List ℕ → ℕ → Result (Option ℕ)
find_from zero mem xsdt sig index = panic "out of fuel"
find_from (suc fuel) mem xsdt sig index =
    let rest = find_from fuel mem xsdt sig (index + 1) in
    next mem xsdt index >>= λ found. found_or mem sig found rest

-- One round for each entry that the length has room for, and one for the end.
pub find_table : Memory → ℕ → List ℕ → Result (Option ℕ)
find_table mem xsdt sig = find_from (suc (table_length mem xsdt / 8)) mem xsdt sig 0

-- `GenericAddress` and its check.
pub address_in_memory_space : (address_space_id address : ℕ) → Result ℕ
address_in_memory_space address_space_id address =
    if address_space_id == 0
    then ok address
    else err "ACPI Generic address is not in system memory space"

-- `AcpiHpetDescriptor::base_address`: the generic address stands 40 bytes in.
pub hpet_base_address : Memory → ℕ → Result ℕ
hpet_base_address mem hpet = address_in_memory_space (mem (hpet + 40)) (word 8 mem (hpet + 44))

-- `AcpiRsdpStruct`: the address of the XSDT stands 24 bytes in.
pub hpet : Memory → ℕ → Result (Option ℕ)
hpet mem rsdp = find_table mem (word 8 mem (rsdp + 24)) (0x48 ∷ 0x50 ∷ 0x45 ∷ 0x54 ∷ [])

pub mcfg : Memory → ℕ → Result (Option ℕ)
mcfg mem rsdp = find_table mem (word 8 mem (rsdp + 24)) (0x4d ∷ 0x43 ∷ 0x46 ∷ 0x47 ∷ [])

-- `AcpiMcfgDescriptor`: 44 bytes of header, and entries of 16.
pub mcfg_entries : Memory → ℕ → Result ℕ
mcfg_entries mem mcfg = do bytes ← length_behind mem mcfg 44; ok (bytes / 16)

pub mcfg_entry : Memory → ℕ → ℕ → Result (Option ℕ)
mcfg_entry mem mcfg index = do
  n ← mcfg_entries mem mcfg
  if leb n index then ok none else ok (some (mcfg + 44 + 16 * index))

-- `Pci::new` of src/pci.rs: the start and the end of the configuration space.
pub ecm_range : Memory → ℕ → Result (ℕ × ℕ)
ecm_range mem mcfg = do
  n ← mcfg_entries mem mcfg
  found ← (if n == 1 then mcfg_entry mem mcfg 0 else panic "assertion failed")
  elim found [ none ↦ panic "out of range" | some e ↦ ok (word 8 mem e, word 8 mem e + 2 ^ 24) ]

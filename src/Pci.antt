-- ===== src/Pci.antt =====
-- src/pci.rs: bus-device-function numbers, configuration registers and the first base address.
pub mod Address
pub mod Bar
mod Examples
use mushix.Prelude.{
  ℕ, zero, suc, ◌+◌, ◌-◌, ◌*◌, ◌/◌, ◌%◌, ◌^◌, bit_and, bit_or, Bool, true, false, not, ◌&&◌, ◌||◌,
  List, [], ◌∷◌, Option, none, some, to_option, ltb, leb, ◌==◌, if◌then◌else◌, Result, ok, err,
  ◌>>=◌, ◌>>◌,
}
use mushix.Word.{shl, shr, bit_not, u16, u32, add64}

abbrev mask_bus : ℕ
mask_bus = 0xff00

abbrev mask_device : ℕ
mask_device = 0xf8

abbrev mask_function : ℕ
mask_function = 7

-- `BusDeviceFunction` is its `id`.
pub new : (bus device function : ℕ) → Result ℕ
new bus device function =
    if not (ltb bus 256) || not (ltb device 32) || not (ltb function 8)
    then err "PCI bus device functikon out of range"
    else ok (u16 (bit_or (bit_or (shl 64 bus 8) (shl 64 device 3)) (shl 64 function 0)))

pub bus : ℕ → ℕ
bus id = shr 64 (bit_and id mask_bus) 8

pub device : ℕ → ℕ
device id = shr 64 (bit_and id mask_device) 3

pub function : ℕ → ℕ
function id = shr 64 (bit_and id mask_function) 0

-- `BusDeviceFunctionIterator::next`: the item and the next id.
pub next : ℕ → Option ℕ × ℕ
next next_id = if ltb 0xffff next_id then (none, next_id) else (some (u16 next_id), next_id + 1)

-- The registers of one function: what a read at an offset gives, and what a write of 32 bits at an
-- offset makes of the state.
pub record Config {ℓ} (S : Type ℓ) : Type ℓ where
  pub load : (bytes : ℕ) → S → (byte_offset : ℕ) → ℕ
  pub store : S → (byte_offset data_ : ℕ) → S

abbrev out_of_range : ℕ → ℕ → Bool
out_of_range bytes byte_offset = not (ltb byte_offset 256) || not (byte_offset % bytes == 0)

-- `ecm_base`
pub ecm_base : (start id : ℕ) → ℕ
ecm_base start id = add64 start (shl 64 id 12)

module _ {ℓ} {S : Type ℓ} (c : Config S) where
  -- `ConfigRegisters::read` and `write` for a type of `bytes` bytes.
  pub read : ℕ → S → ℕ → Result ℕ
  read bytes s byte_offset =
      if out_of_range bytes byte_offset
      then err "PCI config register read out of range"
      else ok (c.load bytes s byte_offset)

  pub write_register_u32 : S → ℕ → ℕ → Result S
  write_register_u32 s byte_offset value =
      if out_of_range 4 byte_offset
      then err "PCI config register write out of range"
      else ok (c.store s byte_offset value)

  abbrev pub read_register_u16 : S → ℕ → Result ℕ
  read_register_u16 = read 2

  abbrev pub read_register_u32 : S → ℕ → Result ℕ
  read_register_u32 = read 4

  pub read_vendor_id_and_device_id : S → Option (ℕ × ℕ)
  read_vendor_id_and_device_id s = elim (to_option (read_register_u16 s 0)) [
    | none ↦ none
    | some vendor ↦ elim (to_option (read_register_u16 s 2)) [
      | none ↦ none
      | some dev ↦
          if vendor == 0xffff || dev == 0xffff
          then none
          else if vendor == 0 || dev == 0
          then none
          else some (vendor, dev)
    ]
  ]

  pub read_register_u64 : S → ℕ → Result ℕ
  read_register_u64 s byte_offset = do
    lo ← read_register_u32 s byte_offset
    hi ← read_register_u32 s (byte_offset + 4)
    ok (bit_or (shl 64 hi 32) lo)

  pub write_register_u64 : S → ℕ → ℕ → Result S
  write_register_u64 s byte_offset value = do
    s ← write_register_u32 s byte_offset (u32 value)
    write_register_u32 s (byte_offset + 4) (u32 (shr 64 value 32))

  -- The address and the size, and the state behind.
  abbrev sized : S → ℕ → Result ((ℕ × ℕ) × S)
  sized s bar0 = do
    s ← write_register_u64 s 0x10 (2 ^ 64 - 1)
    probed ← read_register_u64 s 0x10
    s ← write_register_u64 s 0x10 bar0
    ok ((bit_and bar0 (bit_not 64 7), add64 1 (bit_not 64 (bit_and probed (bit_not 64 7)))), s)

  pub try_bar0_mem64 : S → Result ((ℕ × ℕ) × S)
  try_bar0_mem64 s = do
    bar0 ← read_register_u64 s 0x10
    if bit_and bar0 7 == 4 then sized s bar0 else err "BAR0 is not a memory-mapped I/O region"

  pub set_command_and_status_flags : S → ℕ → Result S
  set_command_and_status_flags s flags = do
    cmd_and_status ← read_register_u32 s 4
    write_register_u32 s 4 (bit_or cmd_and_status flags)

  pub enable_bus_mastering : S → Result S
  enable_bus_mastering s = set_command_and_status_flags s (2 ^ 2)

  pub disable_interrupt : S → Result S
  disable_interrupt s = set_command_and_status_flags s (2 ^ 10)

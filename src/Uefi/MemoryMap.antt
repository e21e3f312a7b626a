-- ===== src/Uefi/MemoryMap.antt =====
-- The iterator over the memory map.
use mushix.Prelude.{
  ℕ, zero, suc, ◌+◌, ◌*◌, ◌^◌, ◌<◌, ◌≤◌, ◌≡◌, refl, sym, ◌∙◌, Option, dec_lt, arith, true, false,
  get_elem?, some, none, ltb, if◌then◌else◌,
}
use mushix.Uefi.{EfiMemoryDescriptor, MemoryMapHolder, next, items_from}

next_end :
    (map : MemoryMapHolder) (ofs : ℕ) → map.memory_map_size ≤ ofs → next map ofs ≡ (none, ofs)
unfolding next
next_end map ofs h = ground arith

next_item :
    (map : MemoryMapHolder) (ofs : ℕ)
    → ofs < map.memory_map_size
    → map.memory_map_size + map.descriptor_size < 2 ^ 64
    → next map ofs ≡ (some (map.descriptor_at ofs), ofs + map.descriptor_size)
unfolding next
next_item map ofs h fits = ground arith

-- The `i`-th item from the offset `ofs` on.
abbrev pub item : MemoryMapHolder → (ofs i : ℕ) → Option EfiMemoryDescriptor
item map ofs i =
    if ltb (ofs + i * map.descriptor_size) map.memory_map_size
    then some (map.descriptor_at (ofs + i * map.descriptor_size))
    else none

item_end : (map : MemoryMapHolder) (ofs i : ℕ) → map.memory_map_size ≤ ofs → item map ofs i ≡ none
item_end map ofs i h =
    let past : ltb (ofs + i * map.descriptor_size) map.memory_map_size ≡ false = ground arith in
    rw past refl

item_first :
    (map : MemoryMapHolder) (ofs : ℕ)
    → ofs < map.memory_map_size
    → item map ofs zero ≡ some (map.descriptor_at ofs)
item_first map ofs h =
    let here : ofs + zero * map.descriptor_size ≡ ofs = omega arith in
    let inside : ltb ofs map.memory_map_size ≡ true = ground arith in rw (here, inside) refl

item_step :
    (map : MemoryMapHolder) (ofs i : ℕ)
    → item map (ofs + map.descriptor_size) i ≡ item map ofs (suc i)
item_step map ofs i =
    let same : ofs + map.descriptor_size + i * map.descriptor_size
        ≡ ofs + suc i * map.descriptor_size =
      omega arith in
    rw same refl

items_from_lem :
    (fuel : ℕ) (map : MemoryMapHolder) (ofs i : ℕ)
    → 0 < map.descriptor_size
    → map.memory_map_size + map.descriptor_size < 2 ^ 64
    → map.memory_map_size ≤ fuel + ofs
    → get_elem? (items_from fuel map ofs) i ≡ item map ofs i
unfolding items_from
items_from_lem zero map ofs i size fits enough = sym (item_end map ofs i (omega arith))
items_from_lem (suc fuel) map ofs zero size fits enough = elim (dec_lt ofs map.memory_map_size) [
  | no done ↦ rw (next_end map ofs (omega arith)) (sym (item_end map ofs zero (omega arith)))
  | yes more ↦ rw (next_item map ofs more fits) (sym (item_first map ofs more))
]
items_from_lem (suc fuel) map ofs (suc i) size fits enough = elim (dec_lt ofs map.memory_map_size) [
  | no done ↦ rw (next_end map ofs (omega arith)) (sym (item_end map ofs (suc i) (omega arith)))
  | yes more ↦ rw (next_item map ofs more fits) (
      items_from_lem fuel map (ofs + map.descriptor_size) i size fits (omega arith)
      ∙ item_step map ofs i)
]

-- With a descriptor size above 0, a loop over the memory map ends within as many steps as the map has bytes,
-- and its items are the descriptors at the multiples of the descriptor size below the map's size, in order.
pub iter_lem :
    (map : MemoryMapHolder) (i : ℕ)
    → 0 < map.descriptor_size
    → map.memory_map_size + map.descriptor_size < 2 ^ 64
    → get_elem? (items_from map.memory_map_size map 0) i ≡ item map 0 i
iter_lem map i size fits = items_from_lem map.memory_map_size map 0 i size fits (omega arith)

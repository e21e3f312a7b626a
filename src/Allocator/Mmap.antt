-- ===== src/Allocator/Mmap.antt =====
-- `init_with_mmap` builds a well-formed heap of free blocks from a sound memory map.
use mushix.Prelude.{
  ℕ, ◌+◌, ◌*◌, ◌%◌, ◌^◌, ◌≤◌, ◌<◌, ◌≡◌, ◌⊎◌, inl, inr, arith, false, List, [], ◌∷◌, All, All-map,
  Bool-cases, leb,
}
use mushix.Uefi.{EfiMemoryDescriptor, is_conventional}
use mushix.Allocator.{Header, Heap, free_block, add_free_from_descriptor, init_with_mmap}
use mushix.Allocator.Blocks.{IsBlock, IsHeap, Disjoint, finish}

abbrev pub region_end : EfiMemoryDescriptor → ℕ
region_end d = d.physical_start + d.number_of_pages * 4096

-- What the firmware guarantees of a descriptor: page-aligned, inside the address space.
pub record IsRegion (d : EfiMemoryDescriptor) : Type 0 where
  pub aligned : d.physical_start % 4096 ≡ 0
  pub in_space : region_end d < 2 ^ 64

abbrev pub DisjointRegions : EfiMemoryDescriptor → EfiMemoryDescriptor → Type 0
DisjointRegions d e = (region_end d ≤ e.physical_start) ⊎ (region_end e ≤ d.physical_start)

abbrev pub ApartRegions : List EfiMemoryDescriptor → Type 0
ApartRegions [] = Unit {0}
ApartRegions (d ∷ ds) = All (DisjointRegions d) ds × ApartRegions ds

-- A block that is free, leaves page 0 alone, and lies outside a region.
abbrev Outside : EfiMemoryDescriptor → Header → Type 0
Outside d h = (finish h ≤ d.physical_start) ⊎ (region_end d ≤ h.addr)

abbrev pub FreeAbovePageZero : Header → Type 0
FreeAbovePageZero h = (h.is_allocated ≡ false) × (4096 ≤ h.addr)

record IsGrowing (hs : Heap) (ds : List EfiMemoryDescriptor) : Type 0 where
  heap : IsHeap hs
  free : All FreeAbovePageZero hs
  outside : All (λ d. All (Outside d) hs) ds

cons-IsGrowing :
    (hs : Heap) (d : EfiMemoryDescriptor) (ds : List EfiMemoryDescriptor) (b : Header)
    → All (DisjointRegions d) ds
    → IsGrowing hs (d ∷ ds)
    → IsBlock b
    → FreeAbovePageZero b
    → d.physical_start ≤ b.addr
    → finish b ≤ region_end d
    → IsGrowing (b ∷ hs) ds
cons-IsGrowing hs d ds b apart g block free lo hi = record {
  heap = record {
    blocks = (block, g.heap.blocks);
    apart = (All-map (Outside d) (Disjoint b) hs (λ h o. omega arith) g.outside.0, g.heap.apart);
  };
  free = (free, g.free);
  outside = outside ds apart g.outside.1;
}
  where
    outside :
        (es : List EfiMemoryDescriptor)
        → All (DisjointRegions d) es
        → All (λ e. All (Outside e) hs) es
        → All (λ e. All (Outside e) (b ∷ hs)) es
    outside [] a o = tt
    outside (e ∷ es) a o = ((omega arith, o.0), outside es a.1 o.1)

skip-IsGrowing :
    (hs : Heap) (d : EfiMemoryDescriptor) (ds : List EfiMemoryDescriptor)
    → IsGrowing hs (d ∷ ds)
    → IsGrowing hs ds
skip-IsGrowing hs d ds g = record { heap = g.heap; free = g.free; outside = g.outside.1 }

free_block_lem :
    (d : EfiMemoryDescriptor)
    → IsRegion d
    → leb (free_block d).size 4096 ≡ false
    → IsBlock (free_block d)
      × FreeAbovePageZero (free_block d)
      × (d.physical_start ≤ (free_block d).addr)
      × (finish (free_block d) ≤ region_end d)
free_block_lem d r h = ground (arith, r.aligned, r.in_space)

-- Adding a region keeps all that for the regions to come.
add-IsGrowing :
    (hs : Heap) (d : EfiMemoryDescriptor) (ds : List EfiMemoryDescriptor)
    → IsRegion d
    → All (DisjointRegions d) ds
    → IsGrowing hs (d ∷ ds)
    → IsGrowing (add_free_from_descriptor hs d) ds
unfolding add_free_from_descriptor
add-IsGrowing hs d ds r apart g = elim (Bool-cases (leb (free_block d).size 4096)) [
  | inl small ↦ rw small (skip-IsGrowing hs d ds g)
  | inr large ↦ rw large (
      let (block, free, lo, hi) = free_block_lem d r large in
      cons-IsGrowing hs d ds (free_block d) apart g block free lo hi)
]

init-IsGrowing :
    (ds : List EfiMemoryDescriptor) (hs : Heap)
    → All IsRegion ds
    → ApartRegions ds
    → IsGrowing hs ds
    → IsGrowing (init_with_mmap hs ds) []
unfolding init_with_mmap
init-IsGrowing [] hs r a g = g
init-IsGrowing (d ∷ ds) hs r a g = elim (Bool-cases (is_conventional d.memory_type)) [
  | inl yes_ ↦
      rw yes_ (
        init-IsGrowing ds (add_free_from_descriptor hs d) r.1 a.1 (add-IsGrowing hs d ds r.0 a.0 g))
  | inr no_ ↦ rw no_ (init-IsGrowing ds hs r.1 a.1 (skip-IsGrowing hs d ds g))
]

no_blocks : (ds : List EfiMemoryDescriptor) → All (λ d. All (Outside d) []) ds
no_blocks [] = tt
no_blocks (d ∷ ds) = (tt, no_blocks ds)

-- From a memory map of page-aligned regions that do not overlap, the allocator starts with a
-- well-formed heap whose blocks are all free and leave page 0 alone.
pub init_with_mmap-IsHeap :
    (ds : List EfiMemoryDescriptor)
    → All IsRegion ds
    → ApartRegions ds
    → IsHeap (init_with_mmap [] ds) × All FreeAbovePageZero (init_with_mmap [] ds)
init_with_mmap-IsHeap ds r a =
    let g =
      init-IsGrowing ds [] r a
        (record { heap = record { blocks = tt; apart = tt }; free = tt; outside = no_blocks ds }) in
    (g.heap, g.free)

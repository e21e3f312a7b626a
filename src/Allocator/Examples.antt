-- ===== src/Allocator/Examples.antt =====
-- The allocator run on small heaps, and its theorems at them.
use mushix.Prelude.{
  ℕ, ◌%◌, ◌<◌, ◌≡◌, ◌⊎◌, refl, arith, true, false, List, [], ◌∷◌, All, none, some, ok, err,
}
use mushix.Uefi.{EfiMemoryDescriptor, conventional_memory, loader_data}
use mushix.Allocator.{
  Header, Heap, bit_length, round_up_to_nearest_pow2, provide_rounded, split, provide,
  alloc_with_options, mark_free, dealloc, add_free_from_descriptor, init_with_mmap,
}
use mushix.Allocator.Pow2.{RoundsUp, Refused, round_up_to_nearest_pow2_lem}
use mushix.Allocator.Blocks.{IsBlock, IsHeap}
use mushix.Allocator.Request.{IsLayout, Carved}
use mushix.Allocator.Heap.{Served, alloc_with_options_lem}
use mushix.Allocator.Safety.{FreeOrClear, alloc_with_options-IsHeap, alloc_with_options-Clear}
use mushix.Allocator.Reuse.{freed, dealloc-Served, provide-freed}
use mushix.Allocator.Mmap.{FreeAbovePageZero, init_with_mmap-IsHeap}

abbrev region : Header
region = record { addr = 0x100000; size = 0x10000; is_allocated = false }

abbrev left : Header
left = record { addr = 0x100000; size = 0xff60; is_allocated = false }

abbrev own : Header
own = record { addr = 0x10ff60; size = 160; is_allocated = true }

abbrev one_region : Heap
one_region = region ∷ []

abbrev after_alloc : Heap
after_alloc = left ∷ own ∷ []

round_up_tests :
    (round_up_to_nearest_pow2 0 ≡ err "Out of range")
    × (round_up_to_nearest_pow2 1 ≡ ok 1)
    × (round_up_to_nearest_pow2 3 ≡ ok 4)
    × (round_up_to_nearest_pow2 8 ≡ ok 8)
    × (round_up_to_nearest_pow2 9 ≡ ok 16)
unfolding round_up_to_nearest_pow2 bit_length
round_up_tests = (refl, refl, refl, refl, refl)

-- 100 bytes at alignment 8: rounded to 128 bytes at the end of the region.
alloc_runs : alloc_with_options one_region 100 8 ≡ ok (some (0x10ff80, after_alloc))
unfolding alloc_with_options provide provide_rounded split round_up_to_nearest_pow2 bit_length
alloc_runs = refl

-- At alignment 4096 a padding block is left behind the allocation.
alloc_pads :
    alloc_with_options one_region 100 4096
    ≡ ok (
        some (
          0x10f000,
          record { addr = 0x100000; size = 0xefe0; is_allocated = false }
              ∷ record { addr = 0x10efe0; size = 160; is_allocated = true }
              ∷ record { addr = 0x10f080; size = 0xf80; is_allocated = false }
              ∷ [],
        ))
unfolding alloc_with_options provide provide_rounded split round_up_to_nearest_pow2 bit_length
alloc_pads = refl

dealloc_runs : dealloc after_alloc 0x10ff80 ≡ some (left ∷ freed own ∷ [])
unfolding dealloc mark_free
dealloc_runs = refl

region-IsBlock : IsBlock region
region-IsBlock = omega arith

one_region-IsHeap : IsHeap one_region
one_region-IsHeap = record { blocks = (region-IsBlock, tt); apart = (tt, tt) }

layout : IsLayout 100 3
layout = omega arith

round_up_to_nearest_pow2_lem_example : ((n : ℕ) × RoundsUp 100 n) ⊎ Refused 100
round_up_to_nearest_pow2_lem_example = round_up_to_nearest_pow2_lem 100 (omega arith)

rounds : RoundsUp 100 7
unfolding round_up_to_nearest_pow2 bit_length
rounds = record {
  result = refl;
  exponent = omega arith;
  enough = omega arith;
  least = omega arith;
  in_range = omega arith;
}

abbrev carved : Carved region 100 3 (record { blocks = after_alloc; ptr = 0x10ff80 })
carved = record {
  free = refl;
  tiles = (refl, (refl, refl));
  good = (omega arith, (omega arith, tt));
  aligned = refl;
  inside = omega arith;
  rest = left;
  own = own;
  padding = [];
  parts = refl;
  own_lem = (refl, omega arith, refl);
  exponent = 7;
  rounds = rounds;
  own_size = refl;
  rest_free = refl;
  padding_free = tt;
}

abbrev served : Served one_region 100 3 0x10ff80 after_alloc
served = record {
  before = [];
  chosen = region;
  after = [];
  provided = record { blocks = after_alloc; ptr = 0x10ff80 };
  found = refl;
  first = tt;
  carved = carved;
  result = refl;
  address = refl;
}

alloc_with_options_lem_example :
    ((ptr : ℕ) × (hs : Heap) × (alloc_with_options one_region 100 8 ≡ ok (some (ptr, hs)))
      × Served one_region 100 3 ptr hs)
    ⊎ ((alloc_with_options one_region 100 8 ≡ ok none)
        × All (λ h. provide h 100 8 ≡ ok none) one_region)
alloc_with_options_lem_example = alloc_with_options_lem one_region 100 3 one_region-IsHeap layout

served_runs : alloc_with_options one_region 100 8 ≡ ok (some (0x10ff80, after_alloc))
unfolding alloc_with_options provide provide_rounded split round_up_to_nearest_pow2 bit_length
served_runs = refl

alloc_with_options-IsHeap_example : IsHeap after_alloc
alloc_with_options-IsHeap_example =
    alloc_with_options-IsHeap one_region 100 3 0x10ff80 after_alloc one_region-IsHeap layout
      served_runs

alloc_with_options-Clear_example :
    (0x10ff80 % 8 ≡ 0) × (0 < 0x10ff80) × All (FreeOrClear 0x10ff80 100) one_region
alloc_with_options-Clear_example =
    alloc_with_options-Clear one_region 100 3 0x10ff80 after_alloc one_region-IsHeap layout
      served_runs

dealloc-Served_example : dealloc after_alloc 0x10ff80 ≡ some (left ∷ freed own ∷ [])
dealloc-Served_example = dealloc-Served one_region-IsHeap served

provide-freed_example : provide (freed own) 100 8 ≡ ok none
provide-freed_example = provide-freed carved layout

-- Sixteen pages from 0, a loader's region, and a region of one page.
abbrev map : List EfiMemoryDescriptor
map =
    record {
      memory_type = conventional_memory;
      physical_start = 0;
      virtual_start = 0;
      number_of_pages = 16;
      attribute = 0;
    }
    ∷ record {
      memory_type = loader_data;
      physical_start = 0x10000;
      virtual_start = 0;
      number_of_pages = 4;
      attribute = 0;
    }
    ∷ record {
      memory_type = conventional_memory;
      physical_start = 0x14000;
      virtual_start = 0;
      number_of_pages = 1;
      attribute = 0;
    }
    ∷ []

init_runs : init_with_mmap [] map ≡ record { addr = 4096; size = 0xf000; is_allocated = false } ∷ []
unfolding init_with_mmap add_free_from_descriptor
init_runs = refl

init_with_mmap-IsHeap_example :
    IsHeap (init_with_mmap [] map) × All FreeAbovePageZero (init_with_mmap [] map)
init_with_mmap-IsHeap_example =
    init_with_mmap-IsHeap map (omega arith, (omega arith, (omega arith, tt))) (omega arith)

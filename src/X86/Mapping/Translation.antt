-- ===== src/X86/Mapping/Translation.antt =====
-- What addresses translate to after `create_mapping`.
use mushix.Prelude.{
  ℕ, zero, suc, ◌+◌, ◌-◌, ◌*◌, ◌/◌, ◌%◌, ◌^◌, ◌<◌, ◌≤◌, ◌≡◌, max, refl, Bool, ◌&&◌, ◌||◌, leb, ltb,
  ◌==◌, if◌then◌else◌, ok, arith, bit_or, ◌>>=◌, Bool-cases, inl, inr,
}
use mushix.X86.{PageAttr, not_present, attr_bits, is_present, calc_index}
use mushix.X86.Mapping.{Table, zeroed, next_level, entry_of, create_mapping}
use mushix.X86.Mapping.Levels.{fill_pml4}

-- The pages that a call maps: those from `virt_start` up to `virt_end`, and always the first.
abbrev pub covers : (virt_start virt_end addr : ℕ) → Bool
covers virt_start virt_end addr = addr == virt_start || (leb virt_start addr && ltb addr virt_end)

-- The page behind the last one, for a range from the page `s` on.
abbrev last : ℕ → ℕ → ℕ
last s virt_end = max (s + 1) ((virt_end + 4095) / 4096)

last-covers :
    (s virt_end j : ℕ)
    → (leb s j && ltb j (last s virt_end)) ≡ covers (s * 4096) virt_end (j * 4096)
last-covers s virt_end j = ground arith

last-ends : (s virt_end n : ℕ) → s < n → leb virt_end (n * 4096) ≡ leb (last s virt_end) n
last-ends s virt_end n later = ground arith

-- The entry for the page at `addr` below `phys - virt_start`.
abbrev pub mapped : (virt_start phys : ℕ) → PageAttr → (addr : ℕ) → ℕ
mapped virt_start phys attr addr = bit_or (phys + (addr - virt_start)) (attr_bits attr)

-- The same in pages.
translated :
    (alloc : ℕ → ℕ) (virt_start virt_end phys s p j : ℕ) (attr : PageAttr) (t : Table 4) (addr : ℕ)
    → ((n : ℕ) → alloc n % 4096 ≡ 0)
    → ((n : ℕ) → alloc n < 2 ^ 64)
    → virt_start ≡ s * 4096
    → phys ≡ p * 4096
    → addr ≡ j * 4096
    → s < 2 ^ 36
    → virt_end ≤ 2 ^ 48
    → j < 2 ^ 36
    → p < 2 ^ 52
    → p * 4096 + (virt_end - s * 4096) ≤ 2 ^ 64
    → (create_mapping alloc virt_start virt_end phys attr t >>= λ t'. ok (entry_of 3 t' addr))
      ≡ ok (
          if covers virt_start virt_end addr
          then mapped virt_start phys attr addr
          else entry_of 3 t addr)
translated alloc virt_start virt_end phys s p j attr t addr ha hs es ep ej small end_small
      page_small phys_small fits =
    let distance : p * 4096 + (j * 4096 - s * 4096) ≡ (p + (j - s)) * 4096 = omega arith in
    rw (es, ep, ej, ← last-covers s virt_end j, distance)
      (fill_pml4 alloc s (last s virt_end) p virt_end attr ha hs (last-ends s virt_end)
        (omega arith) (omega arith) t j (omega arith) page_small)

-- With tables boxed at multiples of 4096, aligned start addresses and a range that stays within 48 bits and
-- does not wrap, `create_mapping` succeeds. The entry for every page from `virt_start` up to `virt_end`, and
-- for the page at `virt_start` also when the range is empty, is then the physical page at the
-- same distance from `phys` with the attributes, and the entry for any other page is what it was.
pub create_mapping_lem :
    (alloc : ℕ → ℕ) (virt_start virt_end phys : ℕ) (attr : PageAttr) (t : Table 4) (addr : ℕ)
    → ((n : ℕ) → alloc n % 4096 ≡ 0)
    → ((n : ℕ) → alloc n < 2 ^ 64)
    → virt_start % 4096 ≡ 0
    → phys % 4096 ≡ 0
    → addr % 4096 ≡ 0
    → virt_start < 2 ^ 48
    → virt_end ≤ 2 ^ 48
    → addr < 2 ^ 48
    → phys < 2 ^ 64
    → phys + (virt_end - virt_start) ≤ 2 ^ 64
    → (create_mapping alloc virt_start virt_end phys attr t >>= λ t'. ok (entry_of 3 t' addr))
      ≡ ok (
          if covers virt_start virt_end addr
          then mapped virt_start phys attr addr
          else entry_of 3 t addr)
create_mapping_lem alloc virt_start virt_end phys attr t addr ha hs av ap' aa sv se sa sp fits =
    translated alloc virt_start virt_end phys (virt_start / 4096) (phys / 4096) (addr / 4096) attr t
      addr ha hs (omega arith) (omega arith) (omega arith) (omega arith) se (omega arith)
      (omega arith) (omega arith)

-- Nothing is mapped by a zeroed table.
pub entry_of-zeroed : (l addr : ℕ) → entry_of l (zeroed (suc l)) addr ≡ 0
unfolding entry_of next_level is_present
entry_of-zeroed zero addr = refl
entry_of-zeroed (suc l) addr = elim (Bool-cases (leb 512 (calc_index (suc (suc l)) addr))) [
  | inl out ↦ rw (out, entry_of) refl
  | inr within ↦ rw (within, entry_of) refl
]

-- Unmapping page 0 leaves the entry 0.
pub mapped-not_present : mapped 0 0 not_present 0 ≡ 0
unfolding attr_bits
mapped-not_present = refl

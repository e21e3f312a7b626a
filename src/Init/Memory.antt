-- ===== src/Init/Memory.antt =====
-- The end of memory and its size in the memory map.
use mushix.Prelude.{
  ℕ, ◌+◌, ◌*◌, ◌/◌, ◌^◌, ◌<◌, ◌≤◌, ◌≡◌, ◌↔◌, max, refl, ◌∙◌, arith, true, false, Bool-cases, ◌⊎◌,
  inl, inr, List, [], ◌∷◌, All, if◌then◌else◌,
}
use mushix.Word.{add64, u64}
use mushix.Uefi.{EfiMemoryDescriptor, is_conventional}
use mushix.Allocator.Mmap.{IsRegion, region_end}
use mushix.Init.{
  is_usable, end_of_mem_from, end_of_mem, total_memory_pages_from, total_memory_size_mib,
}

-- A descriptor that is not usable, or ends by `b`.
abbrev pub EndsBy : ℕ → EfiMemoryDescriptor → Type 0
EndsBy b d = (is_usable d.memory_type ≡ false) ⊎ (region_end d ≤ b)

unwrapped :
    (d : EfiMemoryDescriptor)
    → IsRegion d
    → add64 d.physical_start (u64 (d.number_of_pages * 4096)) ≡ region_end d
unwrapped d r = omega (arith, r.in_space)

used_end : {a b : ℕ} → (true ≡ false) ⊎ (a ≤ b) → a ≤ b
used_end (inl e) = absurd (cc)
used_end (inr h) = h

end_of_mem_from_iff :
    (end b : ℕ) (ds : List EfiMemoryDescriptor)
    → All IsRegion ds
    → (end_of_mem_from end ds ≤ b) ↔ ((end ≤ b) × All (EndsBy b) ds)
unfolding end_of_mem_from
end_of_mem_from_iff end b [] r = (λ h. (h, tt), λ h. h.0)
end_of_mem_from_iff end b (d ∷ ds) (r, rs) = elim (Bool-cases (is_usable d.memory_type)) [
  | inl use_it ↦
      let ih = end_of_mem_from_iff (max end (region_end d)) b ds rs in
      rw (use_it, unwrapped d r)
        (
          λ h. (omega (arith, (ih.0 h).0), (inr (omega (arith, (ih.0 h).0)), (ih.0 h).1)),
          λ h. ih.1 (omega (arith, h.0, used_end h.1.0), h.1.1),
        )
  | inr skip ↦
      let ih = end_of_mem_from_iff end b ds rs in
      rw skip (λ h. ((ih.0 h).0, (inl refl, (ih.0 h).1)), λ h. ih.1 (h.0, h.1.1))
]

-- The end of memory is at most `b` exactly when `b` is at least 4 GiB and every region of conventional or
-- loader memory ends by `b`: it is the largest of these ends and 4 GiB.
pub end_of_mem_iff :
    (b : ℕ) (ds : List EfiMemoryDescriptor)
    → All IsRegion ds
    → (end_of_mem ds ≤ b) ↔ ((2 ^ 32 ≤ b) × All (EndsBy b) ds)
unfolding end_of_mem
end_of_mem_iff b ds r = end_of_mem_from_iff (2 ^ 32) b ds r

-- The pages of conventional memory.
pub conventional_pages : List EfiMemoryDescriptor → ℕ
conventional_pages [] = 0
conventional_pages (d ∷ ds) =
    (if is_conventional d.memory_type then d.number_of_pages else 0) + conventional_pages ds

total_memory_pages_from_lem :
    (total : ℕ) (ds : List EfiMemoryDescriptor)
    → total + conventional_pages ds < 2 ^ 64
    → total_memory_pages_from total ds ≡ total + conventional_pages ds
unfolding total_memory_pages_from conventional_pages
total_memory_pages_from_lem total [] h = omega arith
total_memory_pages_from_lem total (d ∷ ds) h = elim (Bool-cases (is_conventional d.memory_type)) [
  | inl count ↦
      let fits : total + (d.number_of_pages + conventional_pages ds) < 2 ^ 64 = rw count at h in
      let plain : add64 total d.number_of_pages ≡ total + d.number_of_pages = omega arith in
      rw (count, plain)
        (total_memory_pages_from_lem (total + d.number_of_pages) ds (omega arith) ∙ omega arith)
  | inr skip ↦
      let fits : total + (0 + conventional_pages ds) < 2 ^ 64 = rw skip at h in
      rw skip (total_memory_pages_from_lem total ds (omega arith) ∙ omega arith)
]

-- The size that is printed is a 256th of the pages of conventional memory, rounded down, when their bytes
-- fit into 64 bits.
pub total_memory_size_mib_lem :
    (ds : List EfiMemoryDescriptor)
    → conventional_pages ds * 4096 < 2 ^ 64
    → total_memory_size_mib ds ≡ conventional_pages ds / 256
unfolding total_memory_size_mib
total_memory_size_mib_lem ds h = omega (arith, total_memory_pages_from_lem 0 ds (omega arith))

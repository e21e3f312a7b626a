-- ===== src/X86/Mapping/Unaligned.antt =====
-- `create_mapping` with a physical address that is no multiple of the page size.
use mushix.Prelude.{
  ℕ, zero, suc, ◌+◌, ◌%◌, ◌^◌, ◌<◌, ◌≡◌, ◌≢◌, refl, false, inl, inr, err, arith, Bool-cases,
  bit_and, ◌==◌,
}
use mushix.Word.{add64, sub64}
use mushix.Word.Fields.{bit_and_mask}
use mushix.X86.{PageAttr, is_present, set_page, calc_index}
use mushix.X86.Page.{new_table, present_table}
use mushix.X86.Mapping.{Table, Entry, zeroed, fill_table, fill_entry, create_mapping}
use mushix.X86.Mapping.Levels.{kept, boxed_table}

module _ (alloc : ℕ → ℕ) (virt_start virt_end phys addr : ℕ) (attr : PageAttr)
    (alloc_aligned : (n : ℕ) → alloc n % 4096 ≡ 0) (alloc_small : (n : ℕ) → alloc n < 2 ^ 64)
    (refused : set_page (sub64 (add64 phys addr) virt_start) attr ≡ err "phys is not aligned") where
  refused_table :
      (l fuel : ℕ) (t : Table (suc l)) (boxed : ℕ)
      → ((e : Entry l) (boxed : ℕ)
          → fill_entry alloc virt_start virt_end phys attr l e addr boxed
            ≡ err "phys is not aligned")
      → fill_table virt_end l
          (fill_entry alloc virt_start virt_end phys attr l)
          (suc fuel)
          t
          addr
          boxed
        ≡ err "phys is not aligned"
  unfolding fill_table
  refused_table l fuel t boxed bad = rw (bad (t (calc_index (suc l) addr)) boxed) refl

  refused_entry :
      (l : ℕ) (e : Entry l) (boxed : ℕ)
      → fill_entry alloc virt_start virt_end phys attr l e addr boxed ≡ err "phys is not aligned"
  unfolding fill_entry
  refused_entry zero (value, owned) boxed = rw refused refl
  refused_entry (suc l) (value, owned) boxed = elim (Bool-cases (is_present value)) [
    | inl on ↦
        rw
          (
            kept value (alloc boxed) on,
            present_table value on,
            on,
            refused_table l 511 owned boxed (refused_entry l),
          )
          refl
    | inr off ↦
        rw
          (
            boxed_table value (alloc boxed) off,
            new_table (alloc boxed) (alloc_small boxed) (alloc_aligned boxed),
            off,
            refused_table l 511 (zeroed (suc l)) (boxed + 1) (refused_entry l),
          )
          refl
  ]

-- `create_mapping` fails with "phys is not aligned" for every physical address that is no multiple
-- of 4096, whatever the table and the range.
pub create_mapping-err :
    (alloc : ℕ → ℕ) (virt_start virt_end phys : ℕ) (attr : PageAttr) (t : Table 4)
    → ((n : ℕ) → alloc n % 4096 ≡ 0)
    → ((n : ℕ) → alloc n < 2 ^ 64)
    → virt_start < 2 ^ 64
    → phys < 2 ^ 64
    → phys % 4096 ≢ 0
    → create_mapping alloc virt_start virt_end phys attr t ≡ err "phys is not aligned"
unfolding create_mapping set_page
create_mapping-err alloc virt_start virt_end phys attr t ha hs sv sp odd =
    let back : sub64 (add64 phys virt_start) virt_start ≡ phys = omega arith in
    let low : (bit_and phys 4095 == 0) ≡ false = ground (arith, bit_and_mask 12 phys) in
    let refused : set_page (sub64 (add64 phys virt_start) virt_start) attr
        ≡ err "phys is not aligned" =
      rw (back, low) refl in
    rw
      (refused_table alloc virt_start virt_end phys virt_start attr ha hs refused 3 511 t 0
        (refused_entry alloc virt_start virt_end phys virt_start attr ha hs refused 3))
      refl

-- ===== src/X86/Examples.antt =====
-- An address with four different indices, a region of device memory, and a table of interrupts.
use mushix.Prelude.{ℕ, ◌+◌, ◌*◌, ◌%◌, ◌^◌, ◌≡◌, refl, arith, if◌then◌else◌, ◌==◌}
use mushix.X86.{index_shift, calc_index}
use mushix.X86.Segments.{interrupt_stack, new}
use mushix.X86.Interrupts.{
  EntryPoints, int_gate_dpl0, int_gate_dpl3, idt_limit, idt_entries, offset, has_entry_point,
  idt_entries_lem,
}

abbrev virt : ℕ
virt = 1 * 2 ^ 39 + 2 * 2 ^ 30 + 3 * 2 ^ 21 + 4 * 2 ^ 12 + 5

virt_indices : (calc_index 4 virt ≡ 1) × (calc_index 3 virt ≡ 2) × (calc_index 1 virt ≡ 4)
unfolding calc_index index_shift
virt_indices = (refl, refl, refl)

abbrev alloc : ℕ → ℕ
alloc n = 0x100000 + n % 256 * 4096

-- One more than the last byte of the table.
limit : ◌≡◌ {A = ℕ} idt_limit 4096
limit = refl

abbrev points : EntryPoints
points = record { unimplemented = 0x1000; entrypoint = λ i. 0x2000 + i * 16 }

abbrev bases : ℕ → ℕ
bases i = 0x100000 * i

idt_entries_lem_example :
    (offset (idt_entries points 8 13)
      ≡ (if has_entry_point 13 then points.entrypoint 13 else points.unimplemented))
    × ((idt_entries points 8 13).segment_selector ≡ 8)
    × ((new bases).ist (idt_entries points 8 13).ist_index
        ≡ interrupt_stack (bases (if 13 == 8 then 2 else 1)))
    × ((idt_entries points 8 13).attr ≡ (if 13 == 3 then int_gate_dpl3 else int_gate_dpl0))
idt_entries_lem_example = idt_entries_lem points 8 13 bases (omega arith) (omega arith)

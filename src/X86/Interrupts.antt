-- ===== src/X86/Interrupts.antt =====
-- src/x86.rs: the interrupt descriptor table and the handler of exceptions.
use mushix.Prelude.{
  ℕ, ◌+◌, ◌*◌, ◌^◌, ◌<◌, ◌≡◌, ◌↔◌, refl, ap, ◌∙◌, arith, bit_and, bit_or, Bool, true, not, ◌==◌,
  ◌||◌, if◌then◌else◌, Result, ok, panic,
}
use mushix.Word.{shl, shr, u16, u32}
use mushix.X86.Segments.{interrupt_stack, new, ist_lem}

abbrev bit_flags_intgate : ℕ
bit_flags_intgate = 0b1110

abbrev bit_flags_present : ℕ
bit_flags_present = 0b10000000

abbrev bit_flags_dpl0 : ℕ
bit_flags_dpl0 = shl 8 0 5

abbrev bit_flags_dpl3 : ℕ
bit_flags_dpl3 = shl 8 3 5

pub data IdtAttr : Type 0 where
  int_gate_dpl0 : IdtAttr
  int_gate_dpl3 : IdtAttr

-- `attr as u8`
pub attr_byte : IdtAttr → ℕ
attr_byte int_gate_dpl0 = bit_or (bit_or bit_flags_intgate bit_flags_present) bit_flags_dpl0
attr_byte int_gate_dpl3 = bit_or (bit_or bit_flags_intgate bit_flags_present) bit_flags_dpl3

pub record IdtDescriptor : Type 0 where
  pub offset_low : ℕ
  pub segment_selector : ℕ
  pub ist_index : ℕ
  pub attr : IdtAttr
  pub offset_mid : ℕ
  pub offset_high : ℕ

-- `IdtDescriptor::new`, for a handler at an address.
pub idt_descriptor : (segment_selector ist_index : ℕ) → IdtAttr → (handler_addr : ℕ) → IdtDescriptor
idt_descriptor segment_selector ist_index attr handler_addr = record {
  offset_low = u16 handler_addr;
  segment_selector = segment_selector;
  ist_index = ist_index;
  attr = attr;
  offset_mid = u16 (shr 64 handler_addr 16);
  offset_high = u32 (shr 64 handler_addr 32);
}

-- The addresses of the entry points of the assembly, and of `int_handler_unimplemented`.
pub record EntryPoints : Type 0 where
  pub unimplemented : ℕ
  pub entrypoint : ℕ → ℕ

-- The entries of `Idt::new`, in the order of their assignments from the last on.
pub idt_entries : EntryPoints → (segment_selector index : ℕ) → IdtDescriptor
idt_entries points cs index =
    if index == 32
    then idt_descriptor cs 1 int_gate_dpl0 (points.entrypoint 32)
    else if index == 14
    then idt_descriptor cs 1 int_gate_dpl0 (points.entrypoint 14)
    else if index == 13
    then idt_descriptor cs 1 int_gate_dpl0 (points.entrypoint 13)
    else if index == 8
    then idt_descriptor cs 2 int_gate_dpl0 (points.entrypoint 8)
    else if index == 6
    then idt_descriptor cs 1 int_gate_dpl0 (points.entrypoint 6)
    else if index == 3
    then idt_descriptor cs 1 int_gate_dpl3 (points.entrypoint 3)
    else idt_descriptor cs 1 int_gate_dpl0 points.unimplemented

-- `IdtrParameters`: the limit is the size of the 256 entries of 16 bytes.
abbrev pub idt_limit : ℕ
idt_limit = u16 (256 * 16)

-- What the handler says of a page fault: the words for the mode, the access, the page and the structures.
pub data Mode : Type 0 where
  user supervisor : Mode

pub data Access : Type 0 where
  instruction_fetch data_write data_read : Access

pub record PageFault : Type 0 where
  pub mode : Mode
  pub access : Access
  pub is_page_present : Bool
  pub structures_invalid : Bool

abbrev set_in : ℕ → ℕ → Bool
set_in error_code mask = not (bit_and error_code mask == 0)

pub page_fault : (error_code : ℕ) → PageFault
page_fault error_code = record {
  mode = if set_in error_code 0b00000100 then user else supervisor;
  access =
      if set_in error_code 0b00010000
      then instruction_fetch
      else if set_in error_code 0b0010
      then data_write
      else data_read;
  is_page_present = set_in error_code 0b0001;
  structures_invalid = set_in error_code 0b0100;
}

-- `inthandler`: it returns after a breakpoint and an invalid opcode.
pub inthandler : (index : ℕ) → Result (Unit {0})
inthandler index =
    if index == 3 then ok tt else if index == 6 then ok tt else panic "fatal exeception"

-- The address of the handler that the processor puts together.
abbrev pub offset : IdtDescriptor → ℕ
offset d = d.offset_low + d.offset_mid * 2 ^ 16 + d.offset_high * 2 ^ 32

-- The numbers that have an entry point of their own.
abbrev pub has_entry_point : ℕ → Bool
has_entry_point index =
    index == 3 || index == 6 || index == 8 || index == 13 || index == 14 || index == 32

offset-idt_descriptor :
    (cs ist : ℕ) (attr : IdtAttr) (addr : ℕ)
    → addr < 2 ^ 64
    → offset (idt_descriptor cs ist attr addr) ≡ addr
unfolding idt_descriptor
offset-idt_descriptor cs ist attr addr h = omega arith

entry_eq :
    (points : EntryPoints) (cs index : ℕ)
    → idt_entries points cs index
      ≡ idt_descriptor cs
          (if index == 8 then 2 else 1)
          (if index == 3 then int_gate_dpl3 else int_gate_dpl0)
          (if has_entry_point index then points.entrypoint index else points.unimplemented)
unfolding idt_entries
entry_eq points cs index = ground arith

descriptor_parts :
    (cs ist : ℕ) (attr : IdtAttr) (addr : ℕ)
    → ((idt_descriptor cs ist attr addr).segment_selector ≡ cs)
      × ((idt_descriptor cs ist attr addr).ist_index ≡ ist)
      × ((idt_descriptor cs ist attr addr).attr ≡ attr)
unfolding idt_descriptor
descriptor_parts cs ist attr addr = (refl, refl, refl)

-- Every entry of the interrupt descriptor table leads to its own entry point for the numbers 3, 6, 8, 13,
-- 14 and 32 and to the unimplemented handler for the others. It runs in the given code segment and on
-- a stack of the task state segment, which the double fault shares with no other number, and only the
-- breakpoint is open to user code.
pub idt_entries_lem :
    (points : EntryPoints) (cs index : ℕ) (bases : ℕ → ℕ)
    → points.unimplemented < 2 ^ 64
    → points.entrypoint index < 2 ^ 64
    → (offset (idt_entries points cs index)
        ≡ (if has_entry_point index then points.entrypoint index else points.unimplemented))
      × ((idt_entries points cs index).segment_selector ≡ cs)
      × ((new bases).ist (idt_entries points cs index).ist_index
          ≡ interrupt_stack (bases (if index == 8 then 2 else 1)))
      × ((idt_entries points cs index).attr ≡ (if index == 3 then int_gate_dpl3 else int_gate_dpl0))
idt_entries_lem points cs index bases hu he =
    let stack : ℕ = if index == 8 then 2 else 1 in
    let attr : IdtAttr = if index == 3 then int_gate_dpl3 else int_gate_dpl0 in
    let handler : ℕ =
      if has_entry_point index then points.entrypoint index else points.unimplemented in
    let (segment, ist, mark) = descriptor_parts cs stack attr handler in
    rw (entry_eq points cs index) (
      offset-idt_descriptor cs stack attr handler (ground arith),
      segment,
      ap (new bases).ist ist ∙ ist_lem bases stack (ground arith) (ground arith),
      mark,
    )

-- The text for a page fault calls the page structures invalid exactly when it says that the fault came
-- from user mode: both read the same bit of the error code.
pub page_fault_iff :
    (error_code : ℕ)
    → ((page_fault error_code).structures_invalid ≡ true) ↔ ((page_fault error_code).mode ≡ user)
unfolding page_fault
page_fault_iff error_code = ground arith

gates : (attr_byte int_gate_dpl0 ≡ 0x8e) × (attr_byte int_gate_dpl3 ≡ 0xee)
unfolding attr_byte
gates = (refl, refl)

-- ===== src/X86/Segments.antt =====
-- src/x86.rs: the global descriptor table and the task state segment.
use mushix.Prelude.{
  ℕ, ◌+◌, ◌*◌, ◌/◌, ◌^◌, ◌<◌, ◌≤◌, ◌≡◌, refl, arith, bit_and, bit_or, true, leb, ◌==◌, ◌&&◌,
  if◌then◌else◌,
}
use mushix.Word.{shl, shr, u8, u16, u32, add64}
use mushix.Word.Fields.{bit_and_mask}

abbrev bit_type_data : ℕ
bit_type_data = shl 64 2 43

abbrev bit_type_code : ℕ
bit_type_code = shl 64 3 43

abbrev bit_present : ℕ
bit_present = shl 64 1 47

abbrev bit_cs_long_mode : ℕ
bit_cs_long_mode = shl 64 1 53

abbrev bit_cs_readable : ℕ
bit_cs_readable = shl 64 1 53

abbrev bit_ds_writeable : ℕ
bit_ds_writeable = shl 64 1 41

pub data GdtAttr : Type 0 where
  kernel_code : GdtAttr
  kernel_data : GdtAttr

-- `GdtSegmentDescriptor::new`: `attr as u64`
pub segment_descriptor : GdtAttr → ℕ
segment_descriptor kernel_code =
    bit_or (bit_or (bit_or bit_type_code bit_present) bit_cs_long_mode) bit_cs_readable
segment_descriptor kernel_data = bit_or (bit_or bit_type_data bit_present) bit_ds_writeable

pub record TaskStateSegment64Descriptor : Type 0 where
  pub limit_low : ℕ
  pub base_low : ℕ
  pub base_mid_low : ℕ
  pub attr : ℕ
  pub base_mid_high : ℕ
  pub base_high : ℕ

-- `TaskStateSegment64Descriptor::new`; the segment has 104 bytes.
pub tss_descriptor : (base_addr : ℕ) → TaskStateSegment64Descriptor
tss_descriptor base_addr = record {
  limit_low = u16 104;
  base_low = u16 (bit_and base_addr 0xffff);
  base_mid_low = u8 (bit_and (shr 64 base_addr 16) 0xff);
  attr = 0b1000000010001001;
  base_mid_high = u8 (bit_and (shr 64 base_addr 24) 0xff);
  base_high = u32 (bit_and (shr 64 base_addr 32) 0xffffffff);
}

-- The selectors, and the table.
abbrev pub kernel_cs : ℕ
kernel_cs = shl 16 1 3

abbrev pub kernel_ds : ℕ
kernel_ds = shl 16 2 3

abbrev pub tss64_sel : ℕ
tss64_sel = shl 16 3 3

pub record Gdt : Type 0 where
  pub null_segment : ℕ
  pub kernel_code_segment : ℕ
  pub kernel_data_segment : ℕ
  pub task_state_segment : TaskStateSegment64Descriptor

-- `GdtWrapper::default`, for a task state segment at `phys_addr`.
pub default_gdt : (phys_addr : ℕ) → Gdt
default_gdt phys_addr = record {
  null_segment = 0;
  kernel_code_segment = segment_descriptor kernel_code;
  kernel_data_segment = segment_descriptor kernel_data;
  task_state_segment = tss_descriptor phys_addr;
}

-- `TaskStateSegment64Inner`: the stack pointers for the privilege levels and for the interrupts.
pub record TaskStateSegment64 : Type 0 where
  pub rsp : ℕ → ℕ
  pub ist : ℕ → ℕ
  pub io_map_base_addr : ℕ

-- `alloc_interrupt_stack`: the end of 64 KiB from the allocator.
pub interrupt_stack : (base : ℕ) → ℕ
interrupt_stack base = add64 base (64 * 1024)

-- `TaskStateSegment64::new`. `bases` are the addresses of the boxed stacks, in their order.
pub new : (bases : ℕ → ℕ) → TaskStateSegment64
new bases = record {
  rsp = λ i. if i == 0 then interrupt_stack (bases 0) else 0;
  ist = λ i. if leb 1 i && leb i 7 then interrupt_stack (bases i) else 0;
  io_map_base_addr = 0;
}

-- The base address that the processor puts together.
abbrev pub base : TaskStateSegment64Descriptor → ℕ
base d = d.base_low + d.base_mid_low * 2 ^ 16 + d.base_mid_high * 2 ^ 24 + d.base_high * 2 ^ 32

-- The descriptor of a task state segment has its parts within their widths, and the processor puts the
-- address that it was made from together again. Its limit is 104, one more than the last byte of the
-- segment's 104.
pub tss_descriptor_lem :
    (addr : ℕ)
    → addr < 2 ^ 64
    → (base (tss_descriptor addr) ≡ addr)
      × ((tss_descriptor addr).base_low < 2 ^ 16)
      × ((tss_descriptor addr).base_mid_low < 2 ^ 8)
      × ((tss_descriptor addr).base_mid_high < 2 ^ 8)
      × ((tss_descriptor addr).base_high < 2 ^ 32)
      × ((tss_descriptor addr).limit_low ≡ 103 + 1)
unfolding tss_descriptor
tss_descriptor_lem addr h = omega (
  arith,
  bit_and_mask 16 addr,
  bit_and_mask 8 (addr / 2 ^ 16),
  bit_and_mask 8 (addr / 2 ^ 24),
  bit_and_mask 32 (addr / 2 ^ 32),
)

-- The stacks for interrupts.
pub ist_lem :
    (bases : ℕ → ℕ) (i : ℕ) → 1 ≤ i → i ≤ 7 → (new bases).ist i ≡ interrupt_stack (bases i)
unfolding new
ist_lem bases i low high = let inside : (leb 1 i && leb i 7) ≡ true = ground arith in rw inside refl

-- The readable bit of a code segment is bit 41. The kernel's code segment has bit 53 instead, which is the
-- bit for long mode, twice.
segment_descriptor_lem :
    (segment_descriptor kernel_code ≡ 2 ^ 43 * 3 + 2 ^ 47 + 2 ^ 53)
    × (segment_descriptor kernel_data ≡ 2 ^ 43 * 2 + 2 ^ 47 + 2 ^ 41)
unfolding segment_descriptor
segment_descriptor_lem = (refl, refl)

-- ===== src/X86/Index.antt =====
-- The four indices of a virtual address and the offset in the page.
use mushix.Prelude.{ℕ, ◌+◌, ◌-◌, ◌*◌, ◌/◌, ◌%◌, ◌^◌, ◌<◌, ◌≡◌, arith}
use mushix.Word.Fields.{bit_and_mask}
use mushix.Word.Shift.{shr_lem}
use mushix.X86.{index_shift, calc_index}

pub digit :
    (level addr : ℕ)
    → (level - 1) * 9 + 12 < 64
    → calc_index level addr ≡ addr / 2 ^ ((level - 1) * 9 + 12) % 512
unfolding calc_index index_shift
digit level addr h =
    rw (shr_lem 64 addr ((level - 1) * 9 + 12) h)
      (bit_and_mask 9 (addr / 2 ^ ((level - 1) * 9 + 12)))

-- The indices of an address in the tables of levels 4 to 1 are below 512, and for an address of 48 bits
-- they make up the address, together with its offset in the page of 4096 bytes.
pub calc_index_lem :
    (addr : ℕ)
    → addr < 2 ^ 48
    → (addr
        ≡ (((calc_index 4 addr * 512 + calc_index 3 addr) * 512 + calc_index 2 addr) * 512
              + calc_index 1 addr)
            * 4096
          + addr % 4096)
      × (calc_index 4 addr < 512)
      × (calc_index 3 addr < 512)
      × (calc_index 2 addr < 512)
      × (calc_index 1 addr < 512)
calc_index_lem addr h =
    rw
      (
        digit 4 addr (omega arith),
        digit 3 addr (omega arith),
        digit 2 addr (omega arith),
        digit 1 addr (omega arith),
      )
      (omega arith, omega arith, omega arith, omega arith, omega arith)

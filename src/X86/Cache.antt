-- ===== src/X86/Cache.antt =====
-- src/x86.rs: `disable_cache`, which maps a region of device memory to itself without caching.
use mushix.Prelude.{
  ℕ, ◌+◌, ◌-◌, ◌%◌, ◌^◌, ◌<◌, ◌≤◌, ◌≡◌, ◌≢◌, refl, arith, Bool-cases, inl, inr, if◌then◌else◌,
  Result, ok, panic, ◌>>=◌, expect_ok, >>=-eq-ok, bit_or,
}
use mushix.Word.{add64}
use mushix.X86.{read_write_io, attr_bits}
use mushix.X86.Mapping.{Table, entry_of, create_mapping}
use mushix.X86.Mapping.Translation.{create_mapping_lem, covers}
use mushix.X86.Mapping.Unaligned.{create_mapping-err}

-- `disable_cache` with the current table, which `with_current_page_table` takes and puts back, for a region
-- of `size` bytes at `vstart`.
pub disable_cache : (alloc : ℕ → ℕ) → Table 4 → (vstart size : ℕ) → Result (Table 4)
disable_cache alloc t vstart size =
    expect_ok (create_mapping alloc vstart (add64 vstart size) vstart read_write_io t)
      "Failed to create mapping"

-- A region at a multiple of 4096 within 48 bits is mapped to itself, uncached: so is every page up to
-- its end, and the first page also of an empty region. Other pages keep their entries.
pub disable_cache_lem :
    (alloc : ℕ → ℕ) (t : Table 4) (vstart size addr : ℕ)
    → ((n : ℕ) → alloc n % 4096 ≡ 0)
    → ((n : ℕ) → alloc n < 2 ^ 64)
    → vstart % 4096 ≡ 0
    → vstart < 2 ^ 48
    → vstart + size ≤ 2 ^ 48
    → addr % 4096 ≡ 0
    → addr < 2 ^ 48
    → (disable_cache alloc t vstart size >>= λ t'. ok (entry_of 3 t' addr))
      ≡ ok (
          if covers vstart (vstart + size) addr
          then bit_or addr (attr_bits read_write_io)
          else entry_of 3 t addr)
unfolding disable_cache
disable_cache_lem alloc t vstart size addr aligned small start low bound page canonical =
    let sum : add64 vstart size ≡ vstart + size = omega arith in
    let (t', run, at) =
      >>=-eq-ok (create_mapping alloc vstart (vstart + size) vstart read_write_io t)
        (λ t'. entry_of 3 t' addr)
        (create_mapping_lem alloc vstart (vstart + size) vstart read_write_io t addr aligned small
          start start page low bound canonical (omega arith) (omega arith)) in
    rw (sum, run, at)
      (elim (Bool-cases (covers vstart (vstart + size) addr)) [
        | inl inside ↦
            let self : vstart + (addr - vstart) ≡ addr = ground arith in rw (inside, self) refl
        | inr outside ↦ rw outside refl
      ])

-- A region that does not start at a multiple of 4096 makes `disable_cache` panic.
pub disable_cache-panic :
    (alloc : ℕ → ℕ) (t : Table 4) (vstart size : ℕ)
    → ((n : ℕ) → alloc n % 4096 ≡ 0)
    → ((n : ℕ) → alloc n < 2 ^ 64)
    → vstart % 4096 ≢ 0
    → vstart < 2 ^ 64
    → disable_cache alloc t vstart size ≡ panic "Failed to create mapping"
unfolding disable_cache
disable_cache-panic alloc t vstart size aligned small odd low =
    rw
      (create_mapping-err alloc vstart (add64 vstart size) vstart read_write_io t aligned small low
        low odd)
      refl

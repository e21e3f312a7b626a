-- ===== src/Pci/Bar.antt =====
-- The first base address of a device, read and sized through the configuration registers.
use native.Mathlib.Nat.{one-le-pow, add-mul-div_right, div-eq_of_lt, div-eq_of_lt-le, mul_assoc}
use mushix.Prelude.{
  ℕ, ◌+◌, ◌-◌, ◌*◌, ◌/◌, ◌%◌, ◌^◌, ◌<◌, ◌≤◌, ◌≡◌, ◌∙◌, ap, sym, refl, arith, bit_and, bit_or, true,
  ◌==◌, ok,
}
use mushix.Word.{shl, bit_not, add64}
use mushix.Word.Split.{bit_or-split, bit_or-zero, zero-bit_or}
use mushix.Word.Fields.{bit_and_mask, clear_field, pow-add, pred-mul}
use mushix.Word.Shift.{two-pow-lt}
use mushix.Pci.{
  Config, read, write_register_u32, read_register_u64, write_register_u64, try_bar0_mem64,
}

-- A 64-bit memory base address register of a device, as the PCI specification has it: two words at
-- 0x10 and 0x14, of which the bits below the size keep the flags whatever is written.
pub record IsBar64 {ℓ} {S : Type ℓ} (c : Config S) (reg : S → ℕ) (n flags : ℕ) : Type ℓ where
  pub low : (s : S) → c.load 4 s 0x10 ≡ reg s % 2 ^ 32
  pub high : (s : S) → c.load 4 s 0x14 ≡ reg s / 2 ^ 32
  pub written :
      (s : S) (value : ℕ)
      → value < 2 ^ 64
      → reg (c.store (c.store s 0x10 (value % 2 ^ 32)) 0x14 (value / 2 ^ 32))
        ≡ value / 2 ^ n * 2 ^ n + flags
  pub at_least_16 : 4 ≤ n
  pub at_most : n < 64
  pub memory_64 : flags % 8 ≡ 4
  pub four_bits : flags < 16

-- The state with a value written to both words.
abbrev pub after_write {ℓ} : {S : Type ℓ} → Config S → S → ℕ → S
after_write c t value = c.store (c.store t 0x10 (value % 2 ^ 32)) 0x14 (value / 2 ^ 32)

module _ {ℓ} {S : Type ℓ} (c : Config S) (reg : S → ℕ) (n flags a : ℕ) (v : IsBar64 c reg n flags)
    (s : S) (programmed : reg s ≡ a * 2 ^ n + flags) (in_range : reg s < 2 ^ 64) where
  joined : (x : ℕ) → x < 2 ^ 64 → bit_or (shl 64 (x / 2 ^ 32) 32) (x % 2 ^ 32) ≡ x
  joined x h = ground (
    arith,
    bit_or-split 32 (x / 2 ^ 32) 0 0 (x % 2 ^ 32),
    bit_or-zero (x / 2 ^ 32),
    zero-bit_or (x % 2 ^ 32),
  )

  read_lem : (t : S) → reg t < 2 ^ 64 → read_register_u64 c t 0x10 ≡ ok (reg t)
  unfolding read_register_u64 read
  read_lem t h = rw (v.low t, v.high t, joined (reg t) h) refl

  write_lem :
      (t : S) (value : ℕ)
      → value < 2 ^ 64
      → write_register_u64 c t 0x10 value
        ≡ ok (c.store (c.store t 0x10 (value % 2 ^ 32)) 0x14 (value / 2 ^ 32))
  unfolding write_register_u64 write_register_u32
  write_lem t value h =
      ap (λ hi. ok (c.store (c.store t 0x10 (value % 2 ^ 32)) 0x14 hi)) (omega arith)

  masked : (x : ℕ) → x < 2 ^ 64 → bit_and x (bit_not 64 7) ≡ x / 8 * 8
  masked x h = clear_field 0 3 61 x h ∙ omega arith

  -- The size is a multiple of 16.
  abbrev m : ℕ
  m = 2 ^ (n - 4)

  size_16 : 2 ^ n ≡ m * 16
  size_16 = ap (λ k. 2 ^ k) (omega (arith, v.at_least_16)) ∙ pow-add (n - 4) 4

  tiles : a * 2 ^ n ≡ a * m * 16
  tiles = ap (λ k. a * k) size_16 ∙ sym (mul_assoc a m 16)

  flags_low : reg s % 8 ≡ 4
  flags_low = omega (arith, programmed, tiles, v.memory_64)

  sum_64 : 64 - n + n ≡ 64
  sum_64 = omega (arith, v.at_most)

  whole : 2 ^ (64 - n) * 2 ^ n ≡ 2 ^ 64
  whole = sym (pow-add (64 - n) n) ∙ ap (λ k. 2 ^ k) sum_64

  ones : (2 ^ 64 - 1) / 2 ^ n * 2 ^ n ≡ 2 ^ 64 - 2 ^ n
  ones =
      let k : ℕ = 2 ^ (64 - n) - 1 in
      let below : k * 2 ^ n + 2 ^ n ≡ 2 ^ 64 =
        pred-mul (2 ^ (64 - n)) (2 ^ n) (one-le-pow (64 - n) 2 (omega arith)) ∙ whole in
      let pred : k + 1 ≡ 2 ^ (64 - n) = omega (arith, one-le-pow (64 - n) 2 (omega arith)) in
      let above : (k + 1) * 2 ^ n ≡ 2 ^ 64 = ap (λ j. j * 2 ^ n) pred ∙ whole in
      let quotient : (2 ^ 64 - 1) / 2 ^ n ≡ k =
        div-eq_of_lt-le (2 ^ n) (omega (arith, below, one-le-pow n 2 (omega arith)))
          (omega (arith, above)) in
      ap (λ q. q * 2 ^ n) quotient ∙ omega (arith, below)

  kept : reg s / 2 ^ n * 2 ^ n + flags ≡ reg s
  kept =
      let small : flags < 2 ^ n =
        omega (arith, size_16, v.four_bits, one-le-pow (n - 4) 2 (omega arith)) in
      let quotient : (a * 2 ^ n + flags) / 2 ^ n ≡ a =
        ap (λ x. x / 2 ^ n) (omega arith)
        ∙ add-mul-div_right flags a (one-le-pow n 2 (omega arith))
        ∙ omega (arith, div-eq_of_lt small) in
      rw programmed (ap (λ q. q * 2 ^ n + flags) quotient)

  abbrev probed : S
  probed = after_write c s (2 ^ 64 - 1)

  probed_reg : reg probed ≡ 2 ^ 64 - 2 ^ n + flags
  probed_reg = v.written s (2 ^ 64 - 1) (omega arith) ∙ ap (λ x. x + flags) ones

  fits : reg probed < 2 ^ 64
  fits = omega (arith, probed_reg, size_16, v.four_bits, one-le-pow (n - 4) 2 (omega arith))

  size_word : add64 1 (bit_not 64 (reg probed / 8 * 8)) ≡ 2 ^ n - flags / 8 * 8
  size_word = omega (
    arith,
    probed_reg,
    size_16,
    v.four_bits,
    v.memory_64,
    two-pow-lt n 64 v.at_most,
    one-le-pow (n - 4) 2 (omega arith),
  )

  -- On a device whose first register is a 64-bit memory address of size 2 ^ n with flags, the
  -- function succeeds and leaves the register as it was. The address and the size are those of the
  -- register, except that bit 3 of the flags, which marks the region as prefetchable, is not masked:
  -- when it is set the address is 8 too high and the size 8 too small.
  pub try_bar0_mem64_lem :
      (try_bar0_mem64 c s
        ≡ ok (
          (a * 2 ^ n + flags / 8 * 8, 2 ^ n - flags / 8 * 8),
          after_write c (after_write c s (2 ^ 64 - 1)) (reg s),
        ))
      × (reg (after_write c (after_write c s (2 ^ 64 - 1)) (reg s)) ≡ reg s)
  unfolding try_bar0_mem64
  try_bar0_mem64_lem = (
    rw
        (
          read_lem s in_range,
          is_memory,
          write_lem s (2 ^ 64 - 1) (omega arith),
          read_lem probed fits,
          write_lem probed (reg s) in_range,
          masked (reg s) in_range,
          masked (reg probed) fits,
          size_word,
        )
        (ap (λ x. ok ((x, 2 ^ n - flags / 8 * 8), after_write c probed (reg s))) address),
    v.written probed (reg s) in_range ∙ kept,
  )
    where
      is_memory : (bit_and (reg s) 7 == 4) ≡ true
      is_memory = ground (arith, bit_and_mask 3 (reg s), flags_low)

      address : reg s / 8 * 8 ≡ a * 2 ^ n + flags / 8 * 8
      address = omega (arith, programmed, tiles)

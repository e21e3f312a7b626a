-- ===== src/Bits/Laws.antt =====
-- What `extract_bits` of src/bits.rs computes.
use native.Mathlib.Nat.{mod-eq_of_lt, div-le_self, mod-le}
use mushix.Prelude.{ℕ, ◌/◌, ◌^◌, ◌<◌, min, ◌≡◌, arith, if◌then◌else◌, ltb}
use mushix.Word.Fields.{field, bit_and_mask}
use mushix.Word.Shift.{mask_lem}
use mushix.Bits.{extract_bits}

-- For a value of the type and any shift below 2 ^ 32, the result is the field of `width` bits, of
-- at most 63, at bit `shift`; from a shift of 64 on it is 0.
pub extract_bits-eq-field :
    (w value shift width : ℕ)
    → value < 2 ^ w
    → shift < 2 ^ 32
    → extract_bits w value shift width
      ≡ (if ltb shift 64 then field shift (min 63 width) value else 0)
unfolding extract_bits
extract_bits-eq-field w value shift width fits hs = ground (
  arith,
  mod-eq_of_lt hs,
  mask_lem 64 (min 63 width) (omega arith),
  bit_and_mask (min 63 width) (value / 2 ^ shift),
  bit_and_mask (min 63 width) 0,
  div-le_self value (2 ^ shift),
  mod-le (value / 2 ^ shift) (2 ^ min 63 width),
  mod-le 0 (2 ^ min 63 width),
)

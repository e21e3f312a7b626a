-- ===== src/Bits.antt =====
-- src/bits.rs: a bit field of a 64-bit value, in a type of `w` bits.
pub mod Laws
mod Examples
use mushix.Prelude.{ℕ, ◌-◌, ◌/◌, ◌%◌, ◌^◌, min, bit_and, ltb, if◌then◌else◌}
use mushix.Word.{shl, u32}

-- `value.checked_shr(n).unwrap_or(0)`
abbrev checked_shr : ℕ → ℕ → ℕ
checked_shr value n = if ltb n 64 then value / 2 ^ n else 0

-- `w` is the width of `T`, and `try_into` gives 0 for what does not fit.
unfoldable pub extract_bits : ℕ → ℕ → ℕ → ℕ → ℕ
extract_bits w value shift width =
    let mask = shl 64 1 (min 63 width) - 1 in
    let bits = bit_and (checked_shr value (u32 shift)) mask in if ltb bits (2 ^ w) then bits else 0

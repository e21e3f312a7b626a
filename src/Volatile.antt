-- ===== src/Volatile.antt =====
-- `Volatile<T>` of src/volatile.rs for an unsigned `T` of `w` bits. The cell is its value.
pub mod Laws
mod Examples
use mushix.Prelude.{ℕ, ◌-◌, Bool, bit_and, bit_or, not, ◌==◌, if◌then◌else◌, Result, ok, err}
use mushix.Word.{shl, shr, bit_not}

-- The new value of the cell, which keeps the old one on an error.
unfoldable pub write_bits : ℕ → ℕ → ℕ → ℕ → ℕ → Result ℕ
write_bits w shift width value old =
    let mask = shl w 1 width - 1 in
    if not (bit_and mask value == value)
    then err "Value out of range"
    else ok (bit_or (shl w value shift) (bit_and old (bit_not w (shl w mask shift))))

unfoldable pub read_bits : ℕ → ℕ → ℕ → ℕ → ℕ
read_bits w shift width old = bit_and (shr w old shift) (shl w 1 width - 1)

-- ===== src/Word.antt =====
-- Operators of Rust's unsigned integers on natural numbers, the width in bits written out.
pub mod Step
pub mod Split
pub mod Fields
pub mod Shift
use mushix.Prelude.{ℕ, ◌+◌, ◌-◌, ◌*◌, ◌/◌, ◌%◌, ◌^◌}

-- `x << k` and `x >> k`. The amount is reduced modulo the width, as in a release build; a debug
-- build panics there. Every call in the code keeps the amount below the width.
abbrev pub shl : ℕ → ℕ → ℕ → ℕ
shl w x k = x * 2 ^ (k % w) % 2 ^ w

abbrev pub shr : ℕ → ℕ → ℕ → ℕ
shr w x k = x / 2 ^ (k % w)

-- `!x`
abbrev pub bit_not : ℕ → ℕ → ℕ
bit_not w x = 2 ^ w - 1 - x

-- `x as u8` and so on
abbrev pub u8 : ℕ → ℕ
u8 x = x % 2 ^ 8

abbrev pub u16 : ℕ → ℕ
u16 x = x % 2 ^ 16

abbrev pub u32 : ℕ → ℕ
u32 x = x % 2 ^ 32

abbrev pub u64 : ℕ → ℕ
u64 x = x % 2 ^ 64

-- `usize` and `u64` addition and subtraction, which wrap in a release build.
abbrev pub add64 : ℕ → ℕ → ℕ
add64 a b = (a + b) % 2 ^ 64

abbrev pub sub64 : ℕ → ℕ → ℕ
sub64 a b = (2 ^ 64 + a - b) % 2 ^ 64

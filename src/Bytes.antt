-- ===== src/Bytes.antt =====
-- `to_le_bytes`, `to_be_bytes`, `from_le_bytes` and `from_be_bytes` of the unsigned integers, and
-- `copy_from_slice` into a range of a buffer.
use mushix.Prelude.{ℕ, zero, suc, ◌+◌, ◌*◌, ◌/◌, ◌^◌, ◌<◌, ◌≡◌, arith, List, [], ◌∷◌, get_or}
use mushix.Word.{u8}

abbrev pub le_bytes_16 : ℕ → List ℕ
le_bytes_16 v = u8 v ∷ u8 (v / 2 ^ 8) ∷ []

abbrev pub le_bytes_32 : ℕ → List ℕ
le_bytes_32 v = u8 v ∷ u8 (v / 2 ^ 8) ∷ u8 (v / 2 ^ 16) ∷ u8 (v / 2 ^ 24) ∷ []

abbrev pub be_bytes_16 : ℕ → List ℕ
be_bytes_16 v = u8 (v / 2 ^ 8) ∷ u8 v ∷ []

abbrev pub be_bytes_32 : ℕ → List ℕ
be_bytes_32 v = u8 (v / 2 ^ 24) ∷ u8 (v / 2 ^ 16) ∷ u8 (v / 2 ^ 8) ∷ u8 v ∷ []

-- The bytes at `i` and behind it; callers have checked the length.
abbrev pub from_le_16 : List ℕ → ℕ → ℕ
from_le_16 buf i = get_or buf i 0 + get_or buf (i + 1) 0 * 2 ^ 8

abbrev pub from_le_32 : List ℕ → ℕ → ℕ
from_le_32 buf i =
    get_or buf i 0
    + get_or buf (i + 1) 0 * 2 ^ 8
    + get_or buf (i + 2) 0 * 2 ^ 16
    + get_or buf (i + 3) 0 * 2 ^ 24

abbrev pub from_be_32 : List ℕ → ℕ → ℕ
from_be_32 buf i =
    get_or buf i 0 * 2 ^ 24
    + get_or buf (i + 1) 0 * 2 ^ 16
    + get_or buf (i + 2) 0 * 2 ^ 8
    + get_or buf (i + 3) 0

abbrev pub from_be_16 : List ℕ → ℕ → ℕ
from_be_16 buf i = get_or buf i 0 * 2 ^ 8 + get_or buf (i + 1) 0

-- `buf[i..i + bytes.len()].copy_from_slice(bytes)`
abbrev pub splice : List ℕ → ℕ → List ℕ → List ℕ
splice buf i [] = buf
splice [] i (b ∷ bs) = []
splice (x ∷ xs) zero (b ∷ bs) = b ∷ splice xs zero bs
splice (x ∷ xs) (suc i) (b ∷ bs) = x ∷ splice xs i (b ∷ bs)

pub from_le-le_bytes_32 : (v : ℕ) → v < 2 ^ 32 → from_le_32 (le_bytes_32 v) 0 ≡ v
from_le-le_bytes_32 v h = omega arith

pub from_be-be_bytes_32 : (v : ℕ) → v < 2 ^ 32 → from_be_32 (be_bytes_32 v) 0 ≡ v
from_be-be_bytes_32 v h = omega arith

pub from_be-be_bytes_16 : (v : ℕ) → v < 2 ^ 16 → from_be_16 (be_bytes_16 v) 0 ≡ v
from_be-be_bytes_16 v h = omega arith

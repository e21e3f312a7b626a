-- ===== src/Word/Shift.antt =====
-- Shifts that stay inside the width, and the masks built from them.
use native.Mathlib.Nat.{mod-eq_of_lt, pow-le-pow_right, one-le-pow, pow-suc}
use mushix.Prelude.{ℕ, suc, ◌-◌, ◌*◌, ◌/◌, ◌^◌, ◌<◌, ◌≡◌, arith}
use mushix.Word.{shl, shr}

pub two-pow-lt : (k n : ℕ) → k < n → 2 ^ k < 2 ^ n
two-pow-lt k n h = omega (
  arith,
  pow-le-pow_right {n = 2} (omega arith) {i = suc k} {j = n} h,
  pow-suc 2 k,
  one-le-pow k 2,
)

pub shl_lem : (w x k : ℕ) → k < w → x * 2 ^ k < 2 ^ w → shl w x k ≡ x * 2 ^ k
shl_lem w x k h fits = rw (mod-eq_of_lt h) (mod-eq_of_lt fits)

pub shr_lem : (w x k : ℕ) → k < w → shr w x k ≡ x / 2 ^ k
shr_lem w x k h = rw (mod-eq_of_lt h)

pub mask_lem : (w k : ℕ) → k < w → shl w 1 k - 1 ≡ 2 ^ k - 1
mask_lem w k h = omega (arith, shl_lem w 1 k h (omega (arith, two-pow-lt k w h)))

-- ===== src/Word/Step.antt =====
-- The bit operations of native numbers, one digit at a time. The library computes them with a supply of
-- digits; a digit to spare changes nothing, so one equation for the lowest digit is left.
use Prim.Native.Nat.{digits, bitwise, bit_and-bitwise, bit_or-bitwise}
use mushix.Prelude.{
  ℕ, zero, suc, ◌+◌, ◌-◌, ◌*◌, ◌/◌, ◌%◌, ◌≤◌, min, max, bit_and, bit_or, ◌≡◌, ◌∙◌, ap, sym, refl,
  arith,
}

module _ (ends : ℕ → ℕ) (combine : ℕ → ℕ → ℕ) where
  -- The number `x`, read with a supply of `s` digits.
  abbrev read : ℕ → ℕ → ℕ → ℕ
  read s x y = digits ends combine s x y

  spare_digit : (s x y : ℕ) → x ≤ s → read (suc s) x y ≡ read s x y
  spare_digit zero zero y enough = refl
  spare_digit (suc s) zero y enough = refl
  spare_digit zero (suc x) y enough = absurd (omega (arith, enough))
  spare_digit (suc s) (suc x) y enough =
      ap (λ high. high * 2 + combine (suc x % 2) (y % 2))
        (spare_digit s (suc x / 2) (y / 2) (omega (arith, enough)))

  spare_digits : (k s x y : ℕ) → x ≤ s → read (s + k) x y ≡ read s x y
  spare_digits zero s x y enough = ap (λ supply. read supply x y) (omega arith)
  spare_digits (suc k) s x y enough =
      let next : s + suc k ≡ suc (s + k) = omega arith in
      ap (λ supply. read supply x y) next
      ∙ spare_digit (s + k) x y (omega (arith, enough))
      ∙ spare_digits k s x y enough

  lowest_digit :
      (x y : ℕ)
      → bitwise ends combine (suc x) y
        ≡ bitwise ends combine (suc x / 2) (y / 2) * 2 + combine (suc x % 2) (y % 2)
  lowest_digit x y =
      let supply : suc x / 2 + (x - suc x / 2) ≡ x = omega arith in
      ap (λ high. high * 2 + combine (suc x % 2) (y % 2))
        (ap (λ s. read s (suc x / 2) (y / 2)) (sym supply)
          ∙ spare_digits (x - suc x / 2) (suc x / 2) (suc x / 2) (y / 2) (omega arith))

pub bit_and_step : (x y : ℕ) → bit_and x y ≡ bit_and (x / 2) (y / 2) * 2 + min (x % 2) (y % 2)
bit_and_step zero y = simp bit_and-bitwise (omega arith)
bit_and_step (suc x) y = simp bit_and-bitwise (lowest_digit (λ y. 0) min x y)

pub bit_or_step : (x y : ℕ) → bit_or x y ≡ bit_or (x / 2) (y / 2) * 2 + max (x % 2) (y % 2)
bit_or_step zero y = simp bit_or-bitwise (omega arith)
bit_or_step (suc x) y = simp bit_or-bitwise (lowest_digit (λ y. y) max x y)

-- ===== src/Graphics/Pixel.antt =====
-- Where the pixels of a frame buffer lie.
use native.Mathlib.Nat.{mul-le-mul_right, mul-add-div_right, div-eq_of_lt}
use mushix.Prelude.{
  ℕ, suc, ◌+◌, ◌*◌, ◌/◌, ◌^◌, ◌<◌, ◌≤◌, ◌≡◌, min, refl, ap, sym, ◌∙◌, arith, ℕ_discrete, Bool, ◌&&◌,
  ◌==◌,
}
use mushix.Prelude.Int.{ℤ, pos, ltb_ℤ, leb_ℤ, pos-add, pos-mul, i64-pos}
use mushix.Graphics.{init_vram, unchecked_pixel_at, is_in_x_range, is_in_y_range}

abbrev pub within : ℕ → ℤ → Bool
within m z = leb_ℤ (pos 0) z && ltb_ℤ z (pos m)

pub is_in_x_range-within :
    (w h p : ℕ) (z : ℤ) → is_in_x_range (init_vram w h p) z ≡ within (min w p) z
unfolding is_in_x_range init_vram
is_in_x_range-within w h p z = ground arith

pub is_in_y_range-within : (w h p : ℕ) (z : ℤ) → is_in_y_range (init_vram w h p) z ≡ within h z
unfolding is_in_y_range init_vram
is_in_y_range-within w h p z = refl

-- The pixel in column `x` of row `y` is the word `y * p + x` of a buffer below 2 ^ 63 bytes.
pub unchecked_pixel_at_lem :
    (w h p x y : ℕ)
    → x < p
    → y < h
    → h * p * 4 < 2 ^ 63
    → unchecked_pixel_at (init_vram w h p) (pos x) (pos y) ≡ (y * p + x) * 4
unfolding unchecked_pixel_at init_vram
unchecked_pixel_at_lem w h p x y hx hy small =
    let below : suc y * p ≤ h * p = mul-le-mul_right {m = suc y} {n = h} p hy in
    rw
      (
        pos-mul y p,
        i64-pos (y * p) (omega arith),
        pos-add (y * p) x,
        i64-pos (y * p + x) (omega arith),
        pos-mul (y * p + x) 4,
        i64-pos ((y * p + x) * 4) (omega arith),
      )
      (omega arith)

row : (p x y : ℕ) → x < p → (y * p + x) / p ≡ y
row p x y h = omega (arith, mul-add-div_right {m = p} (omega arith) y x, div-eq_of_lt h)

-- Two pixels of different places are different words.
pub same_pixel :
    (p x y x' y' : ℕ)
    → x < p
    → x' < p
    → ((y * p + x) * 4 == (y' * p + x') * 4) ≡ ((x == x') && (y == y'))
same_pixel p x y x' y' hx hx' = elim (ℕ_discrete (y * p + x) (y' * p + x')) [
  | yes same ↦
      let rows : y ≡ y' = sym (row p x y hx) ∙ ap (λ (o : ℕ). o / p) same ∙ row p x' y' hx' in
      let columns : x ≡ x' = omega (arith, ap (λ (r : ℕ). r * p) rows) in ground arith
  | no other ↦ ground (arith, ap (λ (r : ℕ). r * p) {x = y} {y = y'})
]

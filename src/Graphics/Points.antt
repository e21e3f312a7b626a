-- ===== src/Graphics/Points.antt =====
-- The points that `draw_line` paints.
use mushix.Prelude.{
  ℕ, zero, suc, ◌+◌, ◌-◌, ◌*◌, ◌^◌, ◌<◌, ◌≤◌, ◌≡◌, min, refl, ◌∙◌, arith, ℕ_discrete, Bool, true,
  false, ◌&&◌, ◌||◌, ltb, leb, ◌==◌, if◌then◌else◌, ok, ◌>>=◌, some,
}
use mushix.Prelude.Int.{ℤ, pos, ◌+ℤ◌, ◌-ℤ◌, ◌*ℤ◌, abs, signum, i64}
use mushix.Graphics.{Buffer, init_vram, unchecked_pixel_at, pixel_at, draw_point, walk}
use mushix.Graphics.Pixel.{
  within, is_in_x_range-within, is_in_y_range-within, unchecked_pixel_at_lem, same_pixel,
}
use mushix.Graphics.Line.{slope, slope_point}

-- The distance from `s` to `e`, and the place `k` steps from `s` towards `e`.
abbrev pub dist : (s e : ℕ) → ℕ
dist s e = (e - s) + (s - e)

abbrev pub move : (s e k : ℕ) → ℕ
move s e k = if leb s e then s + k else s - k

pub abs-dist : (s e : ℕ) → s < 2 ^ 32 → e < 2 ^ 32 → abs (i64 (pos e -ℤ pos s)) ≡ pos (dist s e)
unfolding ◌-ℤ◌ i64
abs-dist s e hs he = ground arith

pub step_by :
    (s e k : ℕ)
    → s < 2 ^ 32
    → e < 2 ^ 32
    → k ≤ dist s e
    → i64 (pos s +ℤ i64 (pos k *ℤ signum (i64 (pos e -ℤ pos s)))) ≡ pos (move s e k)
unfolding ◌-ℤ◌ ◌+ℤ◌ ◌*ℤ◌ i64
step_by s e k hs he hk = ground arith

-- One of the steps from `i` on, `left` of them, meets `P`.
abbrev pub some_step : (P : ℕ → Bool) (left i : ℕ) → Bool
some_step P zero i = false
some_step P (suc left) i = P i || some_step P left (i + 1)

-- On the longer side only the step at the distance of the place can meet it.
pub some_step_lem :
    (s e m : ℕ) (q : ℕ → Bool) (left i : ℕ)
    → i + left ≤ dist s e
    → some_step (λ k. (m == move s e k) && q k) left i ≡ (
        leb i (dist s m) && ltb (dist s m) (i + left) && (m == move s e (dist s m)) && q (dist s m))
some_step_lem s e m q zero i h = ground arith
some_step_lem s e m q (suc left) i h = elim (ℕ_discrete i (dist s m)) [
  | yes here ↦ rw (some_step_lem s e m q left (i + 1) (omega arith)) (ground arith)
  | no other ↦ rw (some_step_lem s e m q left (i + 1) (omega arith)) (ground arith)
]

module _ (w h p color : ℕ) (small : h * p * 4 < 2 ^ 63) (x y : ℕ) (hx : x < p) (hy : y < h) where
  abbrev pub at : ℕ
  at = unchecked_pixel_at (init_vram w h p) (pos x) (pos y)

  place_at :
      (a c : ℕ)
      → a < min w p
      → c < h
      → pixel_at (init_vram w h p) (pos a) (pos c) ≡ some ((c * p + a) * 4)
  unfolding pixel_at
  place_at a c ha hc =
      let inside_x : within (min w p) (pos a) ≡ true = ground arith in
      let inside_y : within h (pos c) ≡ true = ground arith in
      rw
        (
          is_in_x_range-within w h p (pos a),
          is_in_y_range-within w h p (pos c),
          inside_x,
          inside_y,
          unchecked_pixel_at_lem w h p a c (omega arith) hc small,
        )
        refl

  abbrev pub painted : (a c : ℕ) → Buffer → Buffer
  painted a c buf offset = if offset == (c * p + a) * 4 then color else buf offset

  pub point :
      (a c : ℕ) (buf : Buffer)
      → a < min w p
      → c < h
      → draw_point (init_vram w h p) color (pos a) (pos c) buf ≡ ok (painted a c buf)
  unfolding draw_point
  point a c buf ha hc = rw (place_at a c ha hc, draw_point) refl

  pub painted-at :
      (a c : ℕ) (buf : Buffer)
      → a < min w p
      → painted a c buf at ≡ (if (x == a) && (y == c) then color else buf at)
  painted-at a c buf ha =
      rw (unchecked_pixel_at_lem w h p x y hx hy small, same_pixel p x y a c hx (omega arith)) refl

  -- A walk whose places all lie on the screen paints the pixel when one of its steps meets it.
  module _ (place : ℤ → ℤ → ℤ × ℤ) (da db : ℕ) (column line : ℕ → ℕ) (short : db ≤ da)
      (long : da < 2 ^ 31)
      (placed : (k : ℕ)
        → k ≤ da
        → place (pos k) (pos (slope da db k)) ≡ (pos (column k), pos (line k)))
      (on_screen : (k : ℕ) → k ≤ da → (column k < min w p) × (line k < h)) where
    walk_step :
        (left i : ℕ) (buf : Buffer)
        → i ≤ da
        → walk (init_vram w h p) color place (pos da) (pos db) (suc left) i buf
          ≡ walk
              (init_vram w h p)
              color
              place
              (pos da)
              (pos db)
              left
              (i + 1)
              (painted (column i) (line i) buf)
    unfolding walk
    walk_step left i buf inside =
        rw
          (
            slope_point da db i long short inside,
            placed i inside,
            point (column i) (line i) buf (on_screen i inside).0 (on_screen i inside).1,
            walk,
          )
          refl

    pub walk_lem :
        (left i : ℕ) (buf : Buffer)
        → i + left ≤ da
        → (walk (init_vram w h p) color place (pos da) (pos db) left i buf >>= λ buf'. ok (buf' at))
          ≡ ok (if some_step (λ k. (x == column k) && (y == line k)) left i then color else buf at)
    unfolding walk
    walk_lem zero i buf inside = refl
    walk_lem (suc left) i buf inside = rw (walk_step left i buf (omega arith)) (
        walk_lem left (i + 1) (painted (column i) (line i) buf) (omega arith)
        ∙ rw (painted-at (column i) (line i) buf (on_screen i (omega arith)).0) (ground arith))

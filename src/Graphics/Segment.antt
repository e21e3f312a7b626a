-- ===== src/Graphics/Segment.antt =====
-- `draw_line` between two points of the screen.
use mushix.Prelude.{
  ℕ, zero, suc, ◌+◌, ◌*◌, ◌^◌, ◌<◌, ◌≤◌, ◌≡◌, min, refl, ap, ◌∙◌, fun_ext, arith, Bool, true, ◌&&◌,
  ltb, leb, ◌==◌, if◌then◌else◌, Bool-cases, inl, inr, ok, ◌>>=◌, leb→le,
}
use mushix.Prelude.Int.{ℤ, pos, pos_part, ◌-ℤ◌, signum, i64}
use mushix.Graphics.{Buffer, init_vram, unchecked_pixel_at, walk, stepped, draw_line}
use mushix.Graphics.Pixel.{within, is_in_x_range-within, is_in_y_range-within}
use mushix.Graphics.Line.{slope, slope_nearest}
use mushix.Graphics.Points.{dist, move, some_step, some_step_lem, abs-dist, step_by, walk_lem}

-- The place `m` lies on the way from `s` to `e`, the end excluded.
abbrev pub toward : (s e m : ℕ) → Bool
toward s e m = ltb (dist s m) (dist s e) && (m == move s e (dist s m))

-- The pixels of a line: one for each step along the longer side, at the nearest place along the shorter.
abbrev pub on_line : (x0 y0 x1 y1 x y : ℕ) → Bool
on_line x0 y0 x1 y1 x y =
    if leb (dist y0 y1) (dist x0 x1)
    then toward x0 x1 x && (y == move y0 y1 (slope (dist x0 x1) (dist y0 y1) (dist x0 x)))
    else toward y0 y1 y && (x == move x0 x1 (slope (dist y0 y1) (dist x0 x1) (dist y0 y)))

slope-le : (da db k : ℕ) → k ≤ da → slope da db k ≤ db
slope-le zero db k h = omega arith
slope-le (suc da) db k h = (slope_nearest (suc da) db k (omega arith) h).2

move-lt : (s e k m : ℕ) → s < m → e < m → k ≤ dist s e → move s e k < m
move-lt s e k m hs he hk = ground arith

longer_x :
    (x0 x1 x : ℕ) (q : ℕ → Bool)
    → some_step (λ k. (x == move x0 x1 k) && q k) (dist x0 x1) 0 ≡ (toward x0 x1 x && q (dist x0 x))
longer_x x0 x1 x q = some_step_lem x0 x1 x q (dist x0 x1) 0 (omega arith) ∙ ground arith

longer_y :
    (y0 y1 y : ℕ) (q : ℕ → Bool)
    → some_step (λ k. q k && (y == move y0 y1 k)) (dist y0 y1) 0 ≡ (toward y0 y1 y && q (dist y0 y))
longer_y y0 y1 y q =
    ap (λ f. some_step f (dist y0 y1) 0) (fun_ext (λ k. and_swap (q k) (y == move y0 y1 k)))
    ∙ longer_x y0 y1 y q
  where
    and_swap : (a b : Bool) → (a && b) ≡ (b && a)
    and_swap a b = ground arith

inside_lem : (m a : ℕ) → a < m → within m (pos a) ≡ true
inside_lem m a h = ground arith

module _ (w h p color : ℕ) (small : h * p * 4 < 2 ^ 63) (wide : w < 2 ^ 31) (tall : h < 2 ^ 31)
    (x0 y0 x1 y1 x y : ℕ) (in_x0 : x0 < min w p) (in_x1 : x1 < min w p) (in_y0 : y0 < h)
    (in_y1 : y1 < h) (hx : x < p) (hy : y < h) (buf : Buffer) where
  abbrev at : ℕ
  at = unchecked_pixel_at (init_vram w h p) (pos x) (pos y)

  abbrev sx : ℤ
  sx = signum (i64 (pos x1 -ℤ pos x0))

  abbrev sy : ℤ
  sy = signum (i64 (pos y1 -ℤ pos y0))

  placed :
      (j k : ℕ)
      → j ≤ dist x0 x1
      → k ≤ dist y0 y1
      → stepped (pos x0) (pos y0) sx sy (pos j) (pos k) ≡ (pos (move x0 x1 j), pos (move y0 y1 k))
  placed j k hj hk =
      rw
        (
          step_by x0 x1 j (omega arith) (omega arith) hj,
          step_by y0 y1 k (omega arith) (omega arith) hk,
        )
        refl

  by_columns :
      dist y0 y1 ≤ dist x0 x1
      → (walk
            (init_vram w h p)
            color
            (λ rx ry. stepped (pos x0) (pos y0) sx sy rx ry)
            (pos (dist x0 x1))
            (pos (dist y0 y1))
            (dist x0 x1)
            0
            buf
          >>= λ buf'. ok (buf' at))
        ≡ ok (
            if toward x0 x1 x && (y == move y0 y1 (slope (dist x0 x1) (dist y0 y1) (dist x0 x)))
            then color
            else buf at)
  by_columns short =
      walk_lem w h p color small x y hx hy (λ rx ry. stepped (pos x0) (pos y0) sx sy rx ry)
        (dist x0 x1) (dist y0 y1) (move x0 x1) (λ k. move y0 y1 (slope (dist x0 x1) (dist y0 y1) k))
        short (omega arith)
        (λ k inside. placed k _ inside (slope-le (dist x0 x1) (dist y0 y1) k inside))
        (λ k inside. (
          move-lt x0 x1 k (min w p) in_x0 in_x1 inside,
          move-lt y0 y1 _ h in_y0 in_y1 (slope-le (dist x0 x1) (dist y0 y1) k inside),
        ))
        (dist x0 x1) 0 buf (omega arith)
      ∙ ap (λ b. ok (if b then color else buf at))
          (longer_x x0 x1 x (λ k. y == move y0 y1 (slope (dist x0 x1) (dist y0 y1) k)))

  by_rows :
      dist x0 x1 ≤ dist y0 y1
      → (walk
            (init_vram w h p)
            color
            (λ ry rx. stepped (pos x0) (pos y0) sx sy rx ry)
            (pos (dist y0 y1))
            (pos (dist x0 x1))
            (dist y0 y1)
            0
            buf
          >>= λ buf'. ok (buf' at))
        ≡ ok (
            if toward y0 y1 y && (x == move x0 x1 (slope (dist y0 y1) (dist x0 x1) (dist y0 y)))
            then color
            else buf at)
  by_rows short =
      walk_lem w h p color small x y hx hy (λ ry rx. stepped (pos x0) (pos y0) sx sy rx ry)
        (dist y0 y1) (dist x0 x1) (λ k. move x0 x1 (slope (dist y0 y1) (dist x0 x1) k)) (move y0 y1)
        short (omega arith)
        (λ k inside. placed _ k (slope-le (dist y0 y1) (dist x0 x1) k inside) inside)
        (λ k inside. (
          move-lt x0 x1 _ (min w p) in_x0 in_x1 (slope-le (dist y0 y1) (dist x0 x1) k inside),
          move-lt y0 y1 k h in_y0 in_y1 inside,
        ))
        (dist y0 y1) 0 buf (omega arith)
      ∙ ap (λ b. ok (if b then color else buf at))
          (longer_y y0 y1 y (λ k. x == move x0 x1 (slope (dist y0 y1) (dist x0 x1) k)))

  -- On a screen of less than 2 ^ 31 columns and rows a line between two points of the screen is drawn without an error.
  -- It paints one pixel for each step along its longer side, at the nearest place along the shorter, and no
  -- other visible pixel. The second point itself is not painted.
  pub draw_line_lem :
      (draw_line (init_vram w h p) color (pos x0) (pos y0) (pos x1) (pos y1) buf >>= λ buf'.
      ok (buf' at))
      ≡ ok (if on_line x0 y0 x1 y1 x y then color else buf at)
  unfolding draw_line
  draw_line_lem =
      let columns = abs-dist x0 x1 (omega arith) (omega arith) in
      let lines = abs-dist y0 y1 (omega arith) (omega arith) in
      let plain_x : dist x0 x1 + 0 ≡ dist x0 x1 = omega arith in
      let plain_y : dist y0 y1 + 0 ≡ dist y0 y1 = omega arith in
      rw
        (
          columns,
          lines,
          ap pos_part columns,
          ap pos_part lines,
          plain_x,
          plain_y,
          is_in_x_range-within w h p (pos x0),
          is_in_x_range-within w h p (pos x1),
          is_in_y_range-within w h p (pos y0),
          is_in_y_range-within w h p (pos y1),
          inside_lem (min w p) x0 in_x0,
          inside_lem (min w p) x1 in_x1,
          inside_lem h y0 in_y0,
          inside_lem h y1 in_y1,
        )
        (elim (Bool-cases (leb (dist y0 y1) (dist x0 x1))) [
          | inl wide_line ↦ rw wide_line (by_columns (leb→le _ _ wide_line))
          | inr tall_line ↦ rw tall_line (by_rows (ground arith))
        ])

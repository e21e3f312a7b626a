-- ===== src/Graphics/Text/Glyph.antt =====
-- What a glyph leaves on the screen.
use mushix.Prelude.{
  ℕ, zero, suc, ◌+◌, ◌-◌, ◌*◌, ◌^◌, ◌<◌, ◌≤◌, ◌≡◌, min, refl, sym, ◌∙◌, arith, Bool, ℕ_discrete,
  false, ◌&&◌, ltb, leb, ◌==◌, if◌then◌else◌, Bool-cases, inl, inr, err, Option, some, none,
}
use mushix.Prelude.Int.{ℤ, pos, negsuc, pos_part, neg_part, ◌+ℤ◌, i64, i64_lem, +ℤ-pos}
use mushix.Graphics.{Buffer, init_vram, unchecked_pixel_at, pixel_at, draw_point}
use mushix.Graphics.Pixel.{within, is_in_x_range-within, is_in_y_range-within}
use mushix.Graphics.Points.{point, painted-at}
use mushix.Graphics.Text.{Glyph, kept, draw_columns, draw_rows, draw_found, draw_font_fg}

-- The pixel (x, y) that shows `old` before a glyph is drawn with its corner at `cx` and `cy`.
abbrev pub shown : Option Glyph → (color : ℕ) (cx cy : ℤ) (x y old : ℕ) → ℕ
shown none color cx cy x y old = old
shown (some glyph) color cx cy x y old =
    let right = x + neg_part cx in
    let down = y + neg_part cy in
    if leb (pos_part cy) down
      && ltb down (pos_part cy + 16)
      && (leb (pos_part cx) right
          && ltb right (pos_part cx + 8)
          && glyph (down - pos_part cy) (right - pos_part cx))
    then color
    else old

-- The place of a corner that leaves room for a glyph in an `i64`.
abbrev pub InReach : ℤ → Type 0
InReach z = (pos_part z + 16 ≤ 2 ^ 63) × (neg_part z ≤ 2 ^ 63)

-- The pixel `x` is the one at the place `z`.
abbrev pub stands_at : ℕ → ℤ → Bool
stands_at x z = x + neg_part z == pos_part z

module _ (w h p color : ℕ) (small : h * p * 4 < 2 ^ 63) (x y : ℕ) (hx : x < min w p)
    (hy : y < h) where
  abbrev at : ℕ
  at = unchecked_pixel_at (init_vram w h p) (pos x) (pos y)

  hidden :
      (a c : ℤ) (buf : Buffer)
      → (within (min w p) a && within h c) ≡ false
      → draw_point (init_vram w h p) color a c buf ≡ err "out of range"
  unfolding draw_point pixel_at
  hidden a c buf out =
      rw (is_in_x_range-within w h p a, is_in_y_range-within w h p c, out, draw_point) refl

  -- A point off the screen is left out, and is no visible pixel.
  clipped :
      (a c : ℤ) (buf : Buffer)
      → kept buf (draw_point (init_vram w h p) color a c buf) at
        ≡ (if stands_at x a && stands_at y c then color else buf at)
  clipped (negsuc a) c buf = rw (hidden (negsuc a) c buf (ground arith)) (ground arith)
  clipped (pos a) (negsuc c) buf = rw (hidden (pos a) (negsuc c) buf (ground arith)) (ground arith)
  clipped (pos a) (pos c) buf = elim (Bool-cases (within (min w p) (pos a) && within h (pos c))) [
    | inl inside ↦
        rw (point w h p color small x y (omega arith) hy a c buf (ground arith) (ground arith))
          (painted-at w h p color small x y (omega arith) hy a c buf (ground arith) ∙ ground arith)
    | inr out ↦ rw (hidden (pos a) (pos c) buf out) (ground arith)
  ]

  module _ (cx cy : ℤ) (glyph : Glyph) (near_x : InReach cx) (near_y : InReach cy) where
    -- The place, counted from where the corner would be at 0.
    abbrev right : ℕ
    right = x + neg_part cx

    abbrev down : ℕ
    down = y + neg_part cy

    reached : (z : ℤ) (d : ℕ) → InReach z → d < 16 → i64 (z +ℤ pos d) ≡ z +ℤ pos d
    reached z d near h =
        i64_lem (z +ℤ pos d) (omega (arith, +ℤ-pos z d, near), omega (arith, +ℤ-pos z d, near))

    stands : (k : ℕ) (z : ℤ) (d : ℕ) → stands_at k (z +ℤ pos d) ≡ (k + neg_part z == pos_part z + d)
    stands k z d = ground (arith, +ℤ-pos z d)

    drawn :
        (dx dy : ℕ) (buf : Buffer)
        → dx < 8
        → dy < 16
        → (if glyph dy dx
              then kept buf
                  (draw_point (init_vram w h p) color (i64 (cx +ℤ pos dx)) (i64 (cy +ℤ pos dy)) buf)
              else buf)
            at
          ≡ (if glyph dy dx && (right == pos_part cx + dx) && (down == pos_part cy + dy)
              then color
              else buf at)
    drawn dx dy buf hx' hy' =
        rw (reached cx dx near_x (omega arith), reached cy dy near_y (omega arith))
          (elim (Bool-cases (glyph dy dx)) [
            | inl set ↦
                rw (set, sym (stands x cx dx), sym (stands y cy dy))
                  (clipped (cx +ℤ pos dx) (cy +ℤ pos dy) buf)
            | inr clear ↦ rw clear refl
          ])

    -- The columns from `dx` on.
    columns :
        (left dx dy : ℕ) (buf : Buffer)
        → dx + left ≤ 8
        → dy < 16
        → draw_columns (init_vram w h p) color cx cy glyph left dx dy buf at ≡ (
            if leb (pos_part cx + dx) right
              && ltb right (pos_part cx + dx + left)
              && (down == pos_part cy + dy)
              && glyph dy (right - pos_part cx)
            then color
            else buf at)
    unfolding draw_columns
    columns zero dx dy buf fits hy' = ground arith
    columns (suc left) dx dy buf fits hy' =
        columns left (dx + 1) dy _ (omega arith) hy'
        ∙ rw (drawn dx dy buf (omega arith) hy') (elim (ℕ_discrete right (pos_part cx + dx)) [
          | yes here ↦
              let column : right - pos_part cx ≡ dx = omega arith in rw column (ground arith)
          | no other ↦ ground arith
        ])

    rows :
        (left dy : ℕ) (buf : Buffer)
        → dy + left ≤ 16
        → draw_rows (init_vram w h p) color cx cy glyph left dy buf at ≡ (
            if leb (pos_part cy + dy) down
              && ltb down (pos_part cy + dy + left)
              && (leb (pos_part cx) right
                  && ltb right (pos_part cx + 8)
                  && glyph (down - pos_part cy) (right - pos_part cx))
            then color
            else buf at)
    unfolding draw_rows
    rows zero dy buf fits = ground arith
    rows (suc left) dy buf fits =
        let plain : pos_part cx + 0 ≡ pos_part cx = omega arith in
        rows left (dy + 1) _ (omega arith)
        ∙ rw (columns 8 0 dy buf (omega arith) (omega arith), plain)
            (elim (ℕ_discrete down (pos_part cy + dy)) [
              | yes here ↦
                  let line : down - pos_part cy ≡ dy = omega arith in rw line (ground arith)
              | no other ↦ ground arith
            ])

  -- A character that the font has is drawn with its corner at the place, also a negative one: a
  -- visible pixel of its 8 columns and 16 rows gets the colour where the glyph is set, and no other
  -- visible pixel changes, also where the glyph reaches over an edge of the screen. A character
  -- that the font lacks changes nothing.
  pub draw_font_fg_lem :
      (lookup_font : ℕ → Option Glyph) (cx cy : ℤ) (c : ℕ) (buf : Buffer)
      → InReach cx
      → InReach cy
      → draw_font_fg (init_vram w h p) lookup_font cx cy color c buf at
        ≡ shown (lookup_font c) color cx cy x y (buf at)
  unfolding draw_font_fg draw_found
  draw_font_fg_lem lookup_font cx cy c buf near_x near_y = found (lookup_font c)
    where
      found :
          (o : Option Glyph)
          → draw_found (init_vram w h p) color cx cy o buf at ≡ shown o color cx cy x y (buf at)
      found none = refl
      found (some glyph) =
          let plain : pos_part cy + 0 ≡ pos_part cy = omega arith in
          rw (rows cx cy glyph near_x near_y 16 0 buf (omega arith), plain) refl

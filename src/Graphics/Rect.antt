-- ===== src/Graphics/Rect.antt =====
-- `fill_rect` paints the rectangle and nothing else.
use mushix.Prelude.{
  ℕ, zero, suc, ◌+◌, ◌*◌, ◌^◌, ◌<◌, ◌≤◌, ◌≡◌, min, refl, ap, ◌∙◌, arith, Bool, true, false, not,
  ◌&&◌, ◌||◌, ltb, leb, ◌==◌, if◌then◌else◌, Bool-cases, inl, inr, ok, err, ◌>>=◌,
}
use mushix.Prelude.Int.{ℤ, pos, negsuc, pos_part, ◌+ℤ◌, ◌-ℤ◌, ltb_ℤ, leb_ℤ, i64, InI64, pos-add}
use mushix.Graphics.{
  Buffer, init_vram, unchecked_pixel_at, unchecked_draw_point, fill_row, fill_rows, fill_rect,
  is_in_x_range, is_in_y_range,
}
use mushix.Graphics.Pixel.{
  within, is_in_x_range-within, is_in_y_range-within, unchecked_pixel_at_lem, same_pixel,
}

module _ (w h p color : ℕ) (small : h * p * 4 < 2 ^ 63) (x y : ℕ) (hx : x < p) (hy : y < h) where
  -- The byte offset of the pixel that is looked at.
  abbrev at : ℕ
  at = unchecked_pixel_at (init_vram w h p) (pos x) (pos y)

  point :
      (a c : ℕ) (buf : Buffer)
      → a < p
      → c < h
      → unchecked_draw_point (init_vram w h p) color (pos a) (pos c) buf at
        ≡ (if (x == a) && (y == c) then color else buf at)
  unfolding unchecked_draw_point
  point a c buf ha hc =
      let here : (at == unchecked_pixel_at (init_vram w h p) (pos a) (pos c))
          ≡ ((x == a) && (y == c)) =
        rw
          (
            unchecked_pixel_at_lem w h p x y hx hy small,
            unchecked_pixel_at_lem w h p a c ha hc small,
          )
          (same_pixel p x y a c hx ha) in
      rw here refl

  row :
      (n a c : ℕ) (buf : Buffer)
      → a + n ≤ p
      → c < h
      → fill_row (init_vram w h p) color n (pos a) (pos c) buf at
        ≡ (if leb a x && ltb x (a + n) && (y == c) then color else buf at)
  unfolding fill_row
  row zero a c buf fits hc =
      let none_left : (leb a x && ltb x (a + zero)) ≡ false = ground arith in rw none_left refl
  row (suc n) a c buf fits hc = rw (pos-add a 1) (
      row n (a + 1) c (unchecked_draw_point (init_vram w h p) color (pos a) (pos c) buf)
        (omega arith) hc
      ∙ rw (point a c buf (omega arith) hc) (ground arith))

  rows :
      (columns n a c : ℕ) (buf : Buffer)
      → a + columns ≤ p
      → c + n ≤ h
      → fill_rows (init_vram w h p) color columns n (pos a) (pos c) buf at
        ≡ (if leb a x && ltb x (a + columns) && (leb c y && ltb y (c + n)) then color else buf at)
  unfolding fill_rows
  rows columns zero a c buf wide tall =
      let none_left : (leb c y && ltb y (c + zero)) ≡ false = ground arith in ground arith
  rows columns (suc n) a c buf wide tall = rw (pos-add c 1) (
      rows columns n a (c + 1) (fill_row (init_vram w h p) color columns (pos a) (pos c) buf) wide
        (omega arith)
      ∙ rw (row columns a c buf wide (omega arith)) (ground arith))

-- A side of `n` from `z` on lies in a range of `m`: its first and its last place do.
abbrev pub spans : (m : ℕ) (z n : ℤ) → Bool
spans m z n = within m z && within m (z +ℤ n -ℤ pos 1)

-- The place `x` is one of the `n` from `z` on.
abbrev pub covered : (z n : ℤ) (x : ℕ) → Bool
covered z n x = leb_ℤ z (pos x) && ltb_ℤ (pos x) (z +ℤ n)

outside : (m a : ℕ) → within m (negsuc a) ≡ false
outside m a = ground arith

wrapped_spans :
    (m : ℕ) (z n : ℤ)
    → m < 2 ^ 32
    → InI64 n
    → (within m z && within m (i64 (i64 (z +ℤ n) -ℤ pos 1))) ≡ spans m z n
unfolding ◌+ℤ◌ ◌-ℤ◌ i64
wrapped_spans m (negsuc a) n hm hn = rw (outside m a) refl
wrapped_spans m (pos a) (pos n) hm hn = ground arith
wrapped_spans m (pos a) (negsuc n) hm hn = ground arith

steps_lem :
    (a : ℕ) (n : ℤ)
    → a < 2 ^ 32
    → InI64 n
    → pos_part n < 2 ^ 32
    → pos_part (i64 (pos a +ℤ n) -ℤ pos a) ≡ pos_part n
unfolding ◌+ℤ◌ ◌-ℤ◌ i64
steps_lem a (pos n) ha hn short = ground arith
steps_lem a (negsuc n) ha hn short = ground arith

covered_lem : (a : ℕ) (n : ℤ) (x : ℕ) → covered (pos a) n x ≡ (leb a x && ltb x (a + pos_part n))
unfolding ◌+ℤ◌
covered_lem a (pos n) x = ground arith
covered_lem a (negsuc n) x = ground arith

guard : (a a' b b' : Bool) → (not a || not b || not a' || not b') ≡ not ((a && a') && (b && b'))
guard a a' b b' = ground arith

in_range :
    (w h p : ℕ) (px py pw ph : ℤ)
    → w < 2 ^ 32
    → h < 2 ^ 32
    → InI64 pw
    → InI64 ph
    → (not (is_in_x_range (init_vram w h p) px)
        || not (is_in_y_range (init_vram w h p) py)
        || not (is_in_x_range (init_vram w h p) (i64 (i64 (px +ℤ pw) -ℤ pos 1)))
        || not (is_in_y_range (init_vram w h p) (i64 (i64 (py +ℤ ph) -ℤ pos 1))))
      ≡ not (spans (min w p) px pw && spans h py ph)
in_range w h p px py pw ph hw hh ip iq =
    rw
      (
        is_in_x_range-within w h p px,
        is_in_x_range-within w h p (i64 (i64 (px +ℤ pw) -ℤ pos 1)),
        is_in_y_range-within w h p py,
        is_in_y_range-within w h p (i64 (i64 (py +ℤ ph) -ℤ pos 1)),
        ← wrapped_spans (min w p) px pw (omega arith) ip,
        ← wrapped_spans h py ph hh iq,
      )
      (guard _ _ _ _)

-- A side that fits is as long as it was given, and ends in the range.
spans_short :
    (m a : ℕ) (n : ℤ)
    → m < 2 ^ 32
    → spans m (pos a) n ≡ true
    → (a < m) × (a + pos_part n ≤ m) × (pos_part n < 2 ^ 32)
unfolding ◌+ℤ◌ ◌-ℤ◌
spans_short m a (pos n) hm fits = ground arith
spans_short m a (negsuc n) hm fits = ground arith

module _ (w h p color : ℕ) (small : h * p * 4 < 2 ^ 63) (x y : ℕ) (hx : x < p) (hy : y < h) where
  painted :
      (px py pw ph : ℤ) (buf : Buffer)
      → w < 2 ^ 32
      → h < 2 ^ 32
      → InI64 pw
      → InI64 ph
      → spans (min w p) px pw ≡ true
      → spans h py ph ≡ true
      → fill_rows
          (init_vram w h p)
          color
          (pos_part (i64 (px +ℤ pw) -ℤ px))
          (pos_part (i64 (py +ℤ ph) -ℤ py))
          px
          py
          buf
          (unchecked_pixel_at (init_vram w h p) (pos x) (pos y))
        ≡ (if covered px pw x && covered py ph y
            then color
            else buf (unchecked_pixel_at (init_vram w h p) (pos x) (pos y)))
  painted (negsuc a) py pw ph buf hw hh ip iq fx fy = cc (fx, outside (min w p) a)
  painted (pos a) (negsuc c) pw ph buf hw hh ip iq fx fy = cc (fy, outside h c)
  painted (pos a) (pos c) pw ph buf hw hh ip iq fx fy =
      let (low_x, wide, short_x) = spans_short (min w p) a pw (omega arith) fx in
      let (low_y, tall, short_y) = spans_short h c ph hh fy in
      rw
        (
          steps_lem a pw (omega arith) ip short_x,
          steps_lem c ph (omega arith) iq short_y,
          covered_lem a pw x,
          covered_lem c ph y,
        )
        (rows w h p color small x y hx hy (pos_part pw) (pos_part ph) a c buf (omega arith) tall)

-- On a frame buffer of less than 2 ^ 63 bytes `fill_rect` paints every visible pixel of the rectangle and leaves
-- every other visible pixel alone, when the first and the last place of both sides are on
-- the screen; otherwise it fails. This holds for all sizes and places, also where the end wraps around.
pub fill_rect_lem :
    (w h p color : ℕ) (px py pw ph : ℤ) (x y : ℕ) (buf : Buffer)
    → w < 2 ^ 32
    → h < 2 ^ 32
    → h * p * 4 < 2 ^ 63
    → InI64 pw
    → InI64 ph
    → x < p
    → y < h
    → (fill_rect (init_vram w h p) color px py pw ph buf >>= λ buf'.
        ok (buf' (unchecked_pixel_at (init_vram w h p) (pos x) (pos y))))
      ≡ (if spans (min w p) px pw && spans h py ph
          then ok (
              if covered px pw x && covered py ph y
              then color
              else buf (unchecked_pixel_at (init_vram w h p) (pos x) (pos y)))
          else err "out of range")
unfolding fill_rect
fill_rect_lem w h p color px py pw ph x y buf hw hh small ip iq hx hy =
    elim (Bool-cases (spans (min w p) px pw)) [
      | inr off ↦ rw (in_range w h p px py pw ph hw hh ip iq, off) refl
      | inl fx ↦ elim (Bool-cases (spans h py ph)) [
        | inr off ↦ rw (in_range w h p px py pw ph hw hh ip iq, fx, off) refl
        | inl fy ↦
            rw (in_range w h p px py pw ph hw hh ip iq, fx, fy)
              (ap ok (painted w h p color small x y hx hy px py pw ph buf hw hh ip iq fx fy))
      ]
    ]

-- A rectangle that fits is drawn.
pub fill_rect-ok :
    (w h p color : ℕ) (px py pw ph : ℤ) (buf : Buffer)
    → w < 2 ^ 32
    → h < 2 ^ 32
    → InI64 pw
    → InI64 ph
    → spans (min w p) px pw ≡ true
    → spans h py ph ≡ true
    → (buf' : Buffer) × (fill_rect (init_vram w h p) color px py pw ph buf ≡ ok buf')
unfolding fill_rect
fill_rect-ok w h p color px py pw ph buf hw hh ip iq fx fy = (
  fill_rows (init_vram w h p) color (pos_part (i64 (px +ℤ pw) -ℤ px))
      (pos_part (i64 (py +ℤ ph) -ℤ py)) px py buf,
  rw (in_range w h p px py pw ph hw hh ip iq, fx, fy) refl,
)

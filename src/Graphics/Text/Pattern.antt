-- ===== src/Graphics/Text/Pattern.antt =====
-- The first picture fits on the screen.
use mushix.Prelude.{
  ℕ, ◌+◌, ◌-◌, ◌*◌, ◌^◌, ◌<◌, ◌≤◌, ◌≡◌, min, refl, arith, true, List, [], ◌∷◌, Option, ok, Result,
  ◌>>=◌, length,
}
use mushix.Word.{bit_not}
use mushix.Prelude.Int.{pos, ◌+ℤ◌, ◌-ℤ◌, i64, pos-add, pos-mul, i64-pos}
use mushix.Graphics.{Buffer, init_vram, fill_rect}
use mushix.Graphics.Rect.{spans, fill_rect-ok}
use mushix.Graphics.Text.{Glyph, draw_squares, draw_test_pattern, init_display}

-- A run that ends with a buffer.
abbrev pub Draws : Result Buffer → Type 0
Draws r = (buf : Buffer) × (r ≡ ok buf)

spans_inside : (m a n : ℕ) → 0 < n → a + n ≤ m → spans m (pos a) (pos n) ≡ true
unfolding ◌+ℤ◌ ◌-ℤ◌
spans_inside m a n some_place fits = ground arith

then-Draws : (r : Result Buffer) (f : Buffer → Buffer) → Draws r → Draws (r >>= λ b. ok (f b))
then-Draws r f (buf, run) = (f buf, rw run refl)

width_eq : (w h p : ℕ) → (init_vram w h p).width ≡ pos w
unfolding init_vram
width_eq w h p = refl

height_eq : (w h p : ℕ) → (init_vram w h p).height ≡ pos h
unfolding init_vram
height_eq w h p = refl

left_eq : (w : ℕ) → w < 2 ^ 32 → 129 ≤ w → i64 (i64 (pos w -ℤ pos 128) -ℤ pos 1) ≡ pos (w - 129)
unfolding ◌-ℤ◌ i64
left_eq w wide hw = ground arith

module _ (w h p : ℕ) (lookup_font : ℕ → Option Glyph) (wide : w < 2 ^ 32) (tall : h < 2 ^ 32)
    (row : w ≤ p) where
  square :
      (color a c n l : ℕ) (buf : Buffer)
      → 0 < n
      → 0 < l
      → a + n ≤ w
      → c + l ≤ h
      → Draws (fill_rect (init_vram w h p) color (pos a) (pos c) (pos n) (pos l) buf)
  square color a c n l buf hn hl hx hy =
      fill_rect-ok w h p color (pos a) (pos c) (pos n) (pos l) buf wide tall (omega arith)
        (omega arith) (spans_inside (min w p) a n hn (omega arith)) (spans_inside h c l hl hy)

  squares :
      (cs : List ℕ) (left i : ℕ) (buf : Buffer)
      → left + 128 ≤ w
      → (i + length cs) * 64 ≤ h
      → Draws (draw_squares (init_vram w h p) lookup_font (pos left) i cs buf)
  unfolding draw_squares
  squares [] left i buf hx hy = (buf, refl)
  squares (c ∷ cs) left i buf hx hy =
      let (first, run) =
        square c left (i * 64) 64 64 buf (omega arith) (omega arith) (omega arith) (omega arith) in
      let (second, run') =
        square (bit_not 32 c) (left + 64) (i * 64) 64 64 first (omega arith) (omega arith)
          (omega arith) (omega arith) in
      rw
        (
          pos-mul i 64,
          i64-pos (i * 64) (omega arith),
          pos-add left 64,
          i64-pos (left + 64) (omega arith),
          run,
          run',
        )
        (squares cs left (i + 1) second hx (omega arith))

  pattern_drawn :
      (buf : Buffer)
      → 129 ≤ w
      → 256 ≤ h
      → Draws (draw_test_pattern (init_vram w h p) lookup_font buf)
  unfolding draw_test_pattern
  pattern_drawn buf hw hh =
      simp (width_eq w h p, left_eq w wide hw)
        (then-Draws _ _ (squares _ (w - 129) 0 buf (omega arith) (omega arith)))

-- A screen of at least 129 columns and 256 rows, whose lines are no longer than they are apart, gets its first
-- picture: neither the background nor the test pattern panics.
pub init_display-Draws :
    (w h p : ℕ) (lookup_font : ℕ → Option Glyph) (buf : Buffer)
    → w < 2 ^ 32
    → h < 2 ^ 32
    → w ≤ p
    → 129 ≤ w
    → 256 ≤ h
    → Draws (init_display (init_vram w h p) lookup_font buf)
unfolding init_display
init_display-Draws w h p lookup_font buf wide tall row hw hh =
    let (blank, run) =
      square w h p lookup_font wide tall row 0 0 0 w h buf (omega arith) (omega arith) (omega arith)
        (omega arith) in
    simp (width_eq w h p, height_eq w h p, run)
      (pattern_drawn w h p lookup_font wide tall row blank hw hh)

-- ===== src/Graphics/Text.antt =====
-- src/graphics.rs: glyphs, strings, the text writer and the test pattern.
pub mod Glyph
pub mod Cursor
pub mod Pattern
use mushix.Prelude.{
  ℕ, zero, suc, ◌+◌, ◌-◌, ◌*◌, ◌^◌, bit_xor, Bool, true, false, not, ◌&&◌, ◌||◌, List, [], ◌∷◌,
  length, Option, none, some, ltb, leb, ◌==◌, if◌then◌else◌, Result, ok, err, panic, ◌>>=◌, unwrap,
  expect_ok,
}
use mushix.Prelude.Int.{ℤ, pos, negsuc, ◌+ℤ◌, ◌-ℤ◌, ◌*ℤ◌, i64}
use mushix.Word.{bit_not}
use mushix.Graphics.{Bitmap, Buffer, draw_point, fill_rect, draw_line}

-- A glyph is set where its 16 rows of 8 characters have a `*`.
abbrev pub Glyph : Type 0
Glyph = (dy dx : ℕ) → Bool

abbrev pub kept : Buffer → Result Buffer → Buffer
kept buf (ok drawn) = drawn
kept buf (err e) = buf
kept buf (panic e) = buf

module _ (b : Bitmap) (color : ℕ) (x y : ℤ) (glyph : Glyph) where
  -- The columns of a row from `dx` on, and the rows from `dy` on.
  pub draw_columns : (left dx dy : ℕ) → Buffer → Buffer
  draw_columns zero dx dy buf = buf
  draw_columns (suc left) dx dy buf = draw_columns left (dx + 1) dy (
      if glyph dy dx
      then kept buf (draw_point b color (i64 (x +ℤ pos dx)) (i64 (y +ℤ pos dy)) buf)
      else buf)

  pub draw_rows : (left dy : ℕ) → Buffer → Buffer
  draw_rows zero dy buf = buf
  draw_rows (suc left) dy buf = draw_rows left (dy + 1) (draw_columns 8 0 dy buf)

pub draw_found : Bitmap → (color : ℕ) (x y : ℤ) → Option Glyph → Buffer → Buffer
draw_found b color x y none buf = buf
draw_found b color x y (some glyph) buf = draw_rows b color x y glyph 16 0 buf

module _ (b : Bitmap) (lookup_font : ℕ → Option Glyph) where
  pub draw_font_fg : (x y : ℤ) (color c : ℕ) → Buffer → Buffer
  draw_font_fg x y color c buf = draw_found b color x y (lookup_font c) buf

  -- `draw_str_fg`, from the character `i` on.
  pub draw_str_from : (x y : ℤ) (color i : ℕ) → List ℕ → Buffer → Buffer
  draw_str_from x y color i [] buf = buf
  draw_str_from x y color i (c ∷ cs) buf =
      draw_str_from x y color (i + 1) cs
        (draw_font_fg (i64 (x +ℤ i64 (pos i *ℤ pos 8))) y color c buf)

  pub draw_str_fg : (x y : ℤ) (color : ℕ) → List ℕ → Buffer → Buffer
  draw_str_fg x y color s buf = draw_str_from x y color 0 s buf

pub record BitmapTextWriter : Type 0 where
  pub buf : Buffer
  pub cursor_x : ℤ
  pub cursor_y : ℤ

pub new_writer : Buffer → BitmapTextWriter
new_writer buf = record { buf = buf; cursor_x = pos 0; cursor_y = pos 0 }

module _ (b : Bitmap) (lookup_font : ℕ → Option Glyph) where
  -- One character: `'\n'` is 10.
  pub write_char : BitmapTextWriter → ℕ → BitmapTextWriter
  write_char w c =
      if c == 10
      then record w { cursor_x = pos 0; cursor_y = i64 (w.cursor_y +ℤ pos 16) }
      else record w {
        buf = draw_font_fg b lookup_font w.cursor_x w.cursor_y 0xffffff c w.buf;
        cursor_x = i64 (w.cursor_x +ℤ pos 8);
      }

  pub write_str : BitmapTextWriter → List ℕ → BitmapTextWriter
  write_str w [] = w
  write_str w (c ∷ cs) = write_str (write_char w c) cs

  abbrev colors : List ℕ
  colors = 0x000000 ∷ 0xff0000 ∷ 0x00ff00 ∷ 0x0000ff ∷ []

  -- The squares of `draw_test_pattern`, from the colour `i` on.
  pub draw_squares : (left : ℤ) (i : ℕ) → List ℕ → Buffer → Result Buffer
  draw_squares left i [] buf = ok buf
  draw_squares left i (c ∷ cs) buf = do
    let y = i64 (pos i *ℤ pos 64)
    buf ← unwrap (fill_rect b c left y (pos 64) (pos 64) buf)
    buf ← unwrap (fill_rect b (bit_not 32 c) (i64 (left +ℤ pos 64)) y (pos 64) (pos 64) buf)
    draw_squares left (i + 1) cs buf

  abbrev points : List (ℕ × ℕ)
  points = (0, 0) ∷ (128, 0) ∷ (0, 128) ∷ (128, 128) ∷ []

  -- The lines from one point to each, and from each point.
  pub draw_lines_from : (left : ℤ) → ℕ × ℕ → List (ℕ × ℕ) → Buffer → Buffer
  draw_lines_from left (x0, y0) [] buf = buf
  draw_lines_from left (x0, y0) ((x1, y1) ∷ ps) buf =
      draw_lines_from left (x0, y0) ps
        (kept buf (
          draw_line b 0xffffff (i64 (left +ℤ pos x0)) (pos y0) (i64 (left +ℤ pos x1)) (pos y1) buf))

  pub draw_lines : (left : ℤ) → List (ℕ × ℕ) → Buffer → Buffer
  draw_lines left [] buf = buf
  draw_lines left (p ∷ ps) buf = draw_lines left ps (draw_lines_from left p points buf)

  pub draw_test_pattern : Buffer → Result Buffer
  draw_test_pattern buf = do
    let left = i64 (i64 (b.width -ℤ pos 128) -ℤ pos 1)
    buf ← draw_squares left 0 colors buf
    let lined = draw_lines left points buf
    let digits =
        draw_str_fg b lookup_font left (pos 256) 0x00ff00
          (48 ∷ 49 ∷ 50 ∷ 51 ∷ 52 ∷ 53 ∷ 54 ∷ 55 ∷ 56 ∷ 57 ∷ []) lined
    ok (draw_str_fg b lookup_font left (pos 272) 0x00ff00 (65 ∷ 66 ∷ 67 ∷ 68 ∷ 69 ∷ 70 ∷ []) digits)

  -- `init_display` of src/init.rs.
  pub init_display : Buffer → Result Buffer
  init_display buf = do
    buf ← expect_ok (fill_rect b 0x000000 (pos 0) (pos 0) b.width b.height buf) "fill_rect failed"
    draw_test_pattern buf

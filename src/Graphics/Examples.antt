-- ===== src/Graphics/Examples.antt =====
-- A screen of 200 columns and 300 rows, whose rows lie 256 pixels apart.
use mushix.Prelude.{
  ℕ, ◌+◌, ◌*◌, ◌≡◌, arith, min, true, ◌&&◌, ◌==◌, [], ◌∷◌, ◌++◌, Option, some, none, if◌then◌else◌,
  ok, err, ◌>>=◌,
}
use mushix.Prelude.Int.{pos, negsuc, ◌+ℤ◌, i64}
use mushix.Graphics.{Buffer, Bitmap, init_vram, unchecked_pixel_at, fill_rect, draw_line}
use mushix.Graphics.Rect.{spans, covered, fill_rect_lem}
use mushix.Graphics.Segment.{on_line, draw_line_lem}
use mushix.Graphics.Text.{
  Glyph, draw_font_fg, draw_str_fg, BitmapTextWriter, write_str, init_display,
}
use mushix.Graphics.Text.Glyph.{shown, draw_font_fg_lem}
use mushix.Graphics.Text.Cursor.{newline, write_str_lem}
use mushix.Graphics.Text.Pattern.{Draws, init_display-Draws}

abbrev screen : Bitmap
screen = init_vram 200 300 256

abbrev blank : Buffer
blank offset = 0

-- A rectangle of 64 by 32 with its corner at (10, 20), and the pixel in its last column and row.
fill_rect_lem_example :
    (fill_rect (init_vram 200 300 256) 5 (pos 10) (pos 20) (pos 64) (pos 32) blank >>= λ buf.
    ok (buf (unchecked_pixel_at (init_vram 200 300 256) (pos 73) (pos 51))))
    ≡ (if spans (min 200 256) (pos 10) (pos 64) && spans 300 (pos 20) (pos 32)
        then ok (
            if covered (pos 10) (pos 64) 73 && covered (pos 20) (pos 32) 51
            then 5
            else blank (unchecked_pixel_at (init_vram 200 300 256) (pos 73) (pos 51)))
        else err "out of range")
fill_rect_lem_example =
    fill_rect_lem 200 300 256 5 (pos 10) (pos 20) (pos 64) (pos 32) 73 51 blank (omega arith)
      (omega arith) (omega arith) (omega arith) (omega arith) (omega arith) (omega arith)

-- The line from (7, 3) to (2, 1), and the pixel (5, 2) on it.
draw_line_lem_example :
    (draw_line (init_vram 200 300 256) 5 (pos 7) (pos 3) (pos 2) (pos 1) blank >>= λ buf.
    ok (buf (unchecked_pixel_at (init_vram 200 300 256) (pos 5) (pos 2))))
    ≡ ok (
        if on_line 7 3 2 1 5 2
        then 5
        else blank (unchecked_pixel_at (init_vram 200 300 256) (pos 5) (pos 2)))
draw_line_lem_example =
    draw_line_lem 200 300 256 5 (omega arith) (omega arith) (omega arith) 7 3 2 1 5 2 (omega arith)
      (omega arith) (omega arith) (omega arith) (omega arith) (omega arith) blank

-- A font whose only character is a full block.
abbrev font : ℕ → Option Glyph
font c = if c == 65 then some (λ dy dx. true) else none

draw_font_fg_lem_example :
    draw_font_fg
      (init_vram 200 300 256)
      font
      (negsuc 2)
      (pos 10)
      5
      65
      blank
      (unchecked_pixel_at (init_vram 200 300 256) (pos 4) (pos 12))
    ≡ shown
        (font 65)
        5
        (negsuc 2)
        (pos 10)
        4
        12
        (blank (unchecked_pixel_at (init_vram 200 300 256) (pos 4) (pos 12)))
draw_font_fg_lem_example =
    draw_font_fg_lem 200 300 256 5 (omega arith) 4 12 (omega arith) (omega arith) font (negsuc 2)
      (pos 10) 65 blank (omega arith, omega arith) (omega arith, omega arith)

abbrev writer : BitmapTextWriter
writer = record { buf = blank; cursor_x = pos 16; cursor_y = pos 32 }

write_str_lem_example :
    (write_str screen font writer (65 ∷ 66 ∷ []) ≡ record {
      buf = draw_str_fg screen font (pos 16) (pos 32) 0xffffff (65 ∷ 66 ∷ []) blank;
      cursor_x = pos (16 + 2 * 8);
      cursor_y = pos 32;
    })
    × (write_str screen font writer ((65 ∷ 66 ∷ []) ++ newline ∷ 65 ∷ [])
        ≡ write_str screen font
            (record {
              buf = draw_str_fg screen font (pos 16) (pos 32) 0xffffff (65 ∷ 66 ∷ []) blank;
              cursor_x = pos 0;
              cursor_y = i64 (pos 32 +ℤ pos 16);
            })
            (65 ∷ []))
write_str_lem_example =
    write_str_lem screen font (65 ∷ 66 ∷ []) (65 ∷ []) 16 (pos 32) blank
      (λ e. omega arith, (λ e. omega arith, tt)) (omega arith)

init_display-Draws_example : Draws (init_display (init_vram 200 300 256) font blank)
init_display-Draws_example =
    init_display-Draws 200 300 256 font blank (omega arith) (omega arith) (omega arith)
      (omega arith) (omega arith)

-- ===== src/Graphics/Text/Cursor.antt =====
-- The text writer against `draw_str_fg`.
use mushix.Prelude.{
  ℕ, zero, suc, ◌+◌, ◌*◌, ◌^◌, ◌<◌, ◌≡◌, ◌≢◌, refl, ap, ◌∙◌, arith, false, List, [], ◌∷◌, ◌++◌,
  length, Option, All, ◌==◌,
}
use mushix.Prelude.Int.{ℤ, pos, ◌+ℤ◌, ◌*ℤ◌, i64, pos-add, pos-mul, i64-pos}
use mushix.Graphics.{Buffer, Bitmap}
use mushix.Graphics.Text.{
  Glyph, draw_font_fg, draw_str_from, draw_str_fg, BitmapTextWriter, write_char, write_str,
}

abbrev pub newline : ℕ
newline = 10

module _ (b : Bitmap) (lookup_font : ℕ → Option Glyph) where
  write_char_plain :
      (w : BitmapTextWriter) (x c : ℕ)
      → c ≢ newline
      → w.cursor_x ≡ pos x
      → x < 2 ^ 62
      → write_char b lookup_font w c ≡ record w {
        buf = draw_font_fg b lookup_font (pos x) w.cursor_y 0xffffff c w.buf;
        cursor_x = pos (x + 8);
      }
  unfolding write_char
  write_char_plain w x c other at near =
      let test : (c == 10) ≡ false = ground arith in
      simp (test, at, pos-add x 8, i64-pos (x + 8) (omega arith)) refl

  place : (x i : ℕ) → x + i * 8 < 2 ^ 62 → i64 (pos x +ℤ i64 (pos i *ℤ pos 8)) ≡ pos (x + i * 8)
  place x i h =
      rw
        (
          pos-mul i 8,
          i64-pos (i * 8) (omega arith),
          pos-add x (i * 8),
          i64-pos (x + i * 8) (omega arith),
        )
        refl

  behind :
      (buf : Buffer) (x y : ℤ) (t : List ℕ)
      → write_str b lookup_font (record { buf = buf; cursor_x = x; cursor_y = y }) (newline ∷ t)
        ≡ write_str b lookup_font
            (record { buf = buf; cursor_x = pos 0; cursor_y = i64 (y +ℤ pos 16) })
            t
  unfolding write_str write_char
  behind buf x y t = refl

  line_from :
      (s : List ℕ) (x i : ℕ) (y : ℤ) (buf : Buffer)
      → All (λ c. c ≢ newline) s
      → x + (i + length s) * 8 < 2 ^ 62
      → write_str b lookup_font (record { buf = buf; cursor_x = pos (x + i * 8); cursor_y = y }) s
        ≡ record {
          buf = draw_str_from b lookup_font (pos x) y 0xffffff i s buf;
          cursor_x = pos (x + (i + length s) * 8);
          cursor_y = y;
        }
  unfolding write_str draw_str_from
  line_from [] x i y buf plain fits =
      ap (λ (k : ℕ). record { buf = buf; cursor_x = pos (x + k * 8); cursor_y = y }) {x = i}
        {y = i + zero} (omega arith)
  line_from (c ∷ cs) x i y buf (other, plain) fits =
      let next : x + i * 8 + 8 ≡ x + (i + 1) * 8 = omega arith in
      let count : i + 1 + length cs ≡ i + suc (length cs) = omega arith in
      rw
        (
          write_char_plain (record { buf = buf; cursor_x = pos (x + i * 8); cursor_y = y })
              (x + i * 8) c other refl (omega arith),
          place x i (omega arith),
          next,
          ← count,
        )
        (line_from cs x (i + 1) y _ plain (omega arith))

  write_str-append :
      (w : BitmapTextWriter) (s t : List ℕ)
      → write_str b lookup_font w (s ++ t) ≡ write_str b lookup_font (write_str b lookup_font w s) t
  unfolding write_str
  write_str-append w [] t = refl
  write_str-append w (c ∷ cs) t = write_str-append (write_char b lookup_font w c) cs t

  -- The writer draws a text without line breaks as `draw_str_fg` does at the cursor, in white, and moves the
  -- cursor by 8 for each character; a text behind a line break goes on at the left edge, 16 lower.
  pub write_str_lem :
      (s t : List ℕ) (x : ℕ) (y : ℤ) (buf : Buffer)
      → All (λ c. c ≢ newline) s
      → x + length s * 8 < 2 ^ 62
      → (write_str b lookup_font (record { buf = buf; cursor_x = pos x; cursor_y = y }) s ≡ record {
        buf = draw_str_fg b lookup_font (pos x) y 0xffffff s buf;
        cursor_x = pos (x + length s * 8);
        cursor_y = y;
      })
        × (write_str b lookup_font
              (record { buf = buf; cursor_x = pos x; cursor_y = y })
              (s ++ newline ∷ t)
            ≡ write_str b lookup_font
                (record {
                  buf = draw_str_fg b lookup_font (pos x) y 0xffffff s buf;
                  cursor_x = pos 0;
                  cursor_y = i64 (y +ℤ pos 16);
                })
                t)
  unfolding draw_str_fg
  write_str_lem s t x y buf plain fits =
      let start : x + 0 * 8 ≡ x = omega arith in
      let count : 0 + length s ≡ length s = omega arith in
      let line : write_str b lookup_font (record { buf = buf; cursor_x = pos x; cursor_y = y }) s
          ≡ record {
            buf = draw_str_from b lookup_font (pos x) y 0xffffff 0 s buf;
            cursor_x = pos (x + length s * 8);
            cursor_y = y;
          } =
        rw start at (rw count at (line_from s x 0 y buf plain (omega arith))) in
      (line, write_str-append _ s (newline ∷ t) ∙ rw line (behind _ _ y t))

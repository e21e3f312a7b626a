-- ===== src/Graphics.antt =====
-- src/graphics.rs: drawing on a frame buffer, and the frame buffer of src/uefi.rs. Coordinates are `i64`, and
-- memory behind the buffer's address is a function from a byte offset to the pixel there.
pub mod Pixel
pub mod Rect
pub mod Line
pub mod Points
pub mod Segment
pub mod Text
mod Examples
use mushix.Prelude.{
  ℕ, zero, suc, ◌+◌, ◌-◌, ◌*◌, ◌^◌, bit_xor, Bool, true, false, not, ◌&&◌, ◌||◌, List, [], ◌∷◌,
  Option, none, some, ltb, leb, ◌==◌, if◌then◌else◌, Result, ok, err, panic, ◌>>=◌, unwrap,
}
use mushix.Prelude.Int.{
  ℤ, pos, negsuc, ◌+ℤ◌, ◌-ℤ◌, ◌*ℤ◌, ◌/ℤ◌, ltb_ℤ, leb_ℤ, min_ℤ, abs, signum, to_u64, i64, pos_part,
}

-- `Bitmap`: what a frame buffer says of itself.
pub record Bitmap : Type 0 where
  pub bytes_per_pixel : ℤ
  pub pixels_per_line : ℤ
  pub width : ℤ
  pub height : ℤ

abbrev pub Buffer : Type 0
Buffer = ℕ → ℕ

-- `init_vram`, for the mode that the firmware reports: numbers of 32 bits.
pub init_vram : (horizontal_resolution vertical_resolution pixels_per_scan_line : ℕ) → Bitmap
init_vram horizontal_resolution vertical_resolution pixels_per_scan_line = record {
  bytes_per_pixel = pos 4;
  pixels_per_line = pos pixels_per_scan_line;
  width = pos horizontal_resolution;
  height = pos vertical_resolution;
}

module _ (b : Bitmap) where
  pub is_in_x_range : ℤ → Bool
  is_in_x_range px = leb_ℤ (pos 0) px && ltb_ℤ px (min_ℤ b.width b.pixels_per_line)

  pub is_in_y_range : ℤ → Bool
  is_in_y_range py = leb_ℤ (pos 0) py && ltb_ℤ py b.height

  -- The byte offset of `unchecked_pixel_at_mut`.
  pub unchecked_pixel_at : (x y : ℤ) → ℕ
  unchecked_pixel_at x y =
      to_u64 (i64 (i64 (i64 (y *ℤ b.pixels_per_line) +ℤ x) *ℤ b.bytes_per_pixel))

  pub pixel_at : (x y : ℤ) → Option ℕ
  pixel_at x y = if is_in_x_range x && is_in_y_range y then some (unchecked_pixel_at x y) else none

  pub unchecked_draw_point : (color : ℕ) (x y : ℤ) → Buffer → Buffer
  unchecked_draw_point color x y buf offset =
      if offset == unchecked_pixel_at x y then color else buf offset

  pub draw_point : (color : ℕ) (x y : ℤ) → Buffer → Result Buffer
  draw_point color x y buf = elim (pixel_at x y) [
    | none ↦ err "out of range"
    | some at ↦ ok (λ offset. if offset == at then color else buf offset)
  ]

  -- `for x in px..px + w`, with `left` columns to go.
  pub fill_row : (color left : ℕ) (x y : ℤ) → Buffer → Buffer
  fill_row color zero x y buf = buf
  fill_row color (suc left) x y buf =
      fill_row color left (x +ℤ pos 1) y (unchecked_draw_point color x y buf)

  -- `for y in py..py + h`
  pub fill_rows : (color columns left : ℕ) (px y : ℤ) → Buffer → Buffer
  fill_rows color columns zero px y buf = buf
  fill_rows color columns (suc left) px y buf =
      fill_rows color columns left px (y +ℤ pos 1) (fill_row color columns px y buf)

  -- The number of steps of `for x in low..high`.
  abbrev steps : (low high : ℤ) → ℕ
  steps low high = pos_part (high -ℤ low)

  pub fill_rect : (color : ℕ) (px py w h : ℤ) → Buffer → Result Buffer
  fill_rect color px py w h buf =
      if not (is_in_x_range px)
        || not (is_in_y_range py)
        || not (is_in_x_range (i64 (i64 (px +ℤ w) -ℤ pos 1)))
        || not (is_in_y_range (i64 (i64 (py +ℤ h) -ℤ pos 1)))
      then err "out of range"
      else ok (fill_rows color (steps px (i64 (px +ℤ w))) (steps py (i64 (py +ℤ h))) px py buf)

abbrev both_le : ℤ → ℤ → Bool
both_le a b = leb_ℤ a b && leb_ℤ b a

pub calc_slope_point : (da db ia : ℤ) → Option ℤ
calc_slope_point da db ia =
    if ltb_ℤ da db
    then none
    else if both_le da (pos 0)
    then some (pos 0)
    else if leb_ℤ (pos 0) ia && leb_ℤ ia da
    then some (i64 (i64 (i64 (pos 2 *ℤ db) *ℤ ia) +ℤ da) /ℤ da /ℤ pos 2)
    else none

module _ (b : Bitmap) (color : ℕ) (place : ℤ → ℤ → ℤ × ℤ) (da db : ℤ) where
  -- The loop over the longer side, `i` steps along with `left` to go; `place` is the point for the steps
  -- along the two sides.
  pub walk : (left i : ℕ) → Buffer → Result Buffer
  walk zero i buf = ok buf
  walk (suc left) i buf = elim (calc_slope_point da db (pos i)) [
    | none ↦ walk left (i + 1) buf
    | some r ↦ draw_point b color (place (pos i) r).0 (place (pos i) r).1 buf >>= walk left (i + 1)
  ]

-- The point that is `rx` and `ry` steps from the start.
abbrev pub stepped : (x0 y0 sx sy rx ry : ℤ) → ℤ × ℤ
stepped x0 y0 sx sy rx ry = (i64 (x0 +ℤ i64 (rx *ℤ sx)), i64 (y0 +ℤ i64 (ry *ℤ sy)))

pub draw_line : Bitmap → (color : ℕ) (x0 y0 x1 y1 : ℤ) → Buffer → Result Buffer
draw_line b color x0 y0 x1 y1 buf =
    let dx = abs (i64 (x1 -ℤ x0)) in
    let sx = signum (i64 (x1 -ℤ x0)) in
    let dy = abs (i64 (y1 -ℤ y0)) in
    let sy = signum (i64 (y1 -ℤ y0)) in
    if not (is_in_x_range b x0)
      || not (is_in_x_range b x1)
      || not (is_in_y_range b y0)
      || not (is_in_y_range b y1)
    then err "out of range"
    else if leb_ℤ dy dx
    then walk b color (λ rx ry. stepped x0 y0 sx sy rx ry) dx dy (pos_part dx) 0 buf
    else walk b color (λ ry rx. stepped x0 y0 sx sy rx ry) dy dx (pos_part dy) 0 buf

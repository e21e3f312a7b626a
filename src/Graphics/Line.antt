-- ===== src/Graphics/Line.antt =====
-- `calc_slope_point` rounds to the nearest place, and `draw_line` paints one pixel for each step.
use native.Mathlib.Nat.{
  mul-le-mul_right, mul-le-mul_left, mul-div-le, lt-div-mul-add, div-div-eq-div-mul,
  div-lt_iff_lt-mul,
}
use mushix.Prelude.{
  ℕ, ◌+◌, ◌-◌, ◌*◌, ◌/◌, ◌^◌, ◌<◌, ◌≤◌, ◌≡◌, refl, arith, false, ◌==◌, if◌then◌else◌, some,
}
use mushix.Prelude.Int.{pos, ◌/ℤ◌, pos-add, pos-mul, i64-pos}
use mushix.Graphics.{calc_slope_point}

-- The steps along the shorter side `db` after `k` along the longer side `da`.
abbrev pub slope : (da db k : ℕ) → ℕ
slope da db k = if da == 0 then 0 else (2 * db * k + da) / da / 2

pos-div : (a b : ℕ) → pos a /ℤ pos b ≡ pos (a / b)
unfolding ◌/ℤ◌
pos-div a b = refl

product_small : (db k : ℕ) → db < 2 ^ 31 → k < 2 ^ 31 → db * k + 2 ^ 31 < 2 ^ 62
product_small db k hb hk = omega (arith, mul-le-mul_right {m = db} {n = 2 ^ 31 - 1} k (omega arith))

pub slope_point :
    (da db k : ℕ)
    → da < 2 ^ 31
    → db ≤ da
    → k ≤ da
    → calc_slope_point (pos da) (pos db) (pos k) ≡ some (pos (slope da db k))
unfolding calc_slope_point
slope_point da db k small short inside =
    let square : 2 * db * k < 2 ^ 63 =
      omega (arith, product_small db k (omega arith) (omega arith)) in
    let sum : 2 * db * k + da < 2 ^ 63 =
      omega (arith, product_small db k (omega arith) (omega arith)) in
    rw
      (
        pos-mul 2 db,
        i64-pos (2 * db) (omega arith),
        pos-mul (2 * db) k,
        i64-pos (2 * db * k) square,
        pos-add (2 * db * k) da,
        i64-pos (2 * db * k + da) sum,
        pos-div (2 * db * k + da) da,
        pos-div ((2 * db * k + da) / da) 2,
      )
      (ground arith)

-- The steps along the shorter side are the nearest whole number to `db * k / da`, and never past `db`.
pub slope_nearest :
    (da db k : ℕ)
    → 0 < da
    → k ≤ da
    → (slope da db k * (2 * da) ≤ 2 * db * k + da)
      × (2 * db * k + da < (slope da db k + 1) * (2 * da))
      × (slope da db k ≤ db)
slope_nearest da db k some_side inside =
    let positive : (da == 0) ≡ false = ground arith in
    let quotient : (2 * db * k + da) / da / 2 ≡ (2 * db * k + da) / (da * 2) =
      div-div-eq-div-mul (2 * db * k + da) da 2 in
    let lower : (2 * db * k + da) / (da * 2) * (2 * da) ≤ 2 * db * k + da =
      omega (arith, mul-div-le (2 * db * k + da) (da * 2)) in
    let upper : 2 * db * k + da < ((2 * db * k + da) / (da * 2) + 1) * (2 * da) =
      omega (arith, lt-div-mul-add {a = 2 * db * k + da} {b = da * 2} (omega arith)) in
    let far : db * k ≤ db * da = mul-le-mul_left {m = k} {n = da} db inside in
    let short : (2 * db * k + da) / (da * 2) < db + 1 =
      (div-lt_iff_lt-mul {k = da * 2} {x = 2 * db * k + da} {y = db + 1} (omega arith)).1
        (omega arith) in
    rw (positive, quotient) (lower, upper, omega arith)

-- For a longer side `da` below 2 ^ 31 and above 0, a shorter side `db` and `k` steps along the longer, the
-- steps along the shorter side that `calc_slope_point` gives are the whole number nearest to
-- `db * k / da`, rounded up at a half, and at most `db`.
pub calc_slope_point_lem :
    (da db k : ℕ)
    → 0 < da
    → da < 2 ^ 31
    → db ≤ da
    → k ≤ da
    → (r : ℕ) × (calc_slope_point (pos da) (pos db) (pos k) ≡ some (pos r))
      × (r * (2 * da) ≤ 2 * db * k + da)
      × (2 * db * k + da < (r + 1) * (2 * da))
      × (r ≤ db)
calc_slope_point_lem da db k some_side small short inside =
    let (lower, upper, most) = slope_nearest da db k some_side inside in
    (slope da db k, slope_point da db k small short inside, lower, upper, most)

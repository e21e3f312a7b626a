-- ===== src/Allocator/Pow2.antt =====
-- `round_up_to_nearest_pow2` gives the least power of two that is not below its argument.
use native.Mathlib.Nat.{pow-suc, pow-le-pow_right}
use mushix.Prelude.{
  ℕ, zero, suc, ◌-◌, ◌*◌, ◌/◌, ◌^◌, ◌≤◌, ◌<◌, ◌≡◌, refl, arith, ok, err, ◌⊎◌, inl, inr, dec_lt,
}
use mushix.Allocator.{bit_length, round_up_to_nearest_pow2}

bit_length-le : (f x : ℕ) → bit_length f x ≤ f
unfolding bit_length
bit_length-le zero x = omega arith
bit_length-le (suc f) x = ground (arith, bit_length-le f (x / 2))

bit_length-upper : (f x : ℕ) → x < 2 ^ f → x < 2 ^ bit_length f x
unfolding bit_length
bit_length-upper zero x h = h
bit_length-upper (suc f) x h =
    ground (arith, pow-suc 2 f, pow-suc 2 (bit_length f (x / 2)), bit_length-upper f (x / 2))

bit_length-zero : (f : ℕ) → bit_length f 0 ≡ 0
unfolding bit_length
bit_length-zero zero = refl
bit_length-zero (suc f) = refl

bit_length-lower : (f x : ℕ) → 0 < x → x < 2 ^ f → 2 ^ bit_length f x ≤ 2 * x
unfolding bit_length
bit_length-lower zero x p h = absurd (omega arith)
bit_length-lower (suc f) x p h = ground (
  arith,
  pow-suc 2 f,
  pow-suc 2 (bit_length f (x / 2)),
  bit_length-lower f (x / 2),
  bit_length-zero f,
)

-- What `round_up_to_nearest_pow2 v` is, on both branches.
pub record RoundsUp (v n : ℕ) : Type 0 where
  pub result : round_up_to_nearest_pow2 v ≡ ok (2 ^ n)
  pub exponent : n < 64
  pub enough : v ≤ 2 ^ n
  pub least : 2 ^ n < 2 * v
  pub in_range : v ≤ 2 ^ 63

pub record Refused (v : ℕ) : Type 0 where
  pub result : round_up_to_nearest_pow2 v ≡ err "Out of range"
  pub outside : (v ≡ 0) ⊎ (2 ^ 63 < v)

suc_pred : (v : ℕ) → suc v - 1 ≡ v
suc_pred v = omega arith

above_zero : (v : ℕ) → suc v < 2 ^ 64 → RoundsUp (suc v) (bit_length 64 v) ⊎ Refused (suc v)
unfolding round_up_to_nearest_pow2
above_zero v h = elim (dec_lt (bit_length 64 v) 64) [
  | yes p ↦ inl (record {
    result = rw (suc_pred v) (ground arith);
    exponent = p;
    enough = omega (arith, bit_length-upper 64 v (omega arith));
    least = least v (omega arith);
    in_range = omega (
      arith,
      bit_length-upper 64 v (omega arith),
      pow-le-pow_right {n = 2} (omega arith) {i = bit_length 64 v} {j = 63} (omega arith),
    );
  })
  | no np ↦
      inr (record {
        result = rw (suc_pred v) (ground arith);
        outside = inr (high v np (omega arith));
      })
]
  where
    least : (v : ℕ) → v < 2 ^ 64 → 2 ^ bit_length 64 v < 2 * suc v
    least zero h = rw (bit_length-zero 64) (omega arith)
    least (suc v) h = omega (arith, bit_length-lower 64 (suc v) (omega arith) h)

    high : (v : ℕ) → ¬ (bit_length 64 v < 64) → v < 2 ^ 64 → 2 ^ 63 < suc v
    high zero np h = absurd (np (omega (arith, bit_length-zero 64)))
    high (suc v) np h = omega (
      arith,
      bit_length-lower 64 (suc v) (omega arith) h,
      pow-le-pow_right {n = 2} (omega arith) {i = 64} {j = bit_length 64 (suc v)} (omega arith),
    )

-- A `usize` from 1 to 2 ^ 63 is rounded up to a power of two that is not below it and is below its
-- double; 0 and what is above 2 ^ 63 are refused.
pub round_up_to_nearest_pow2_lem : (v : ℕ) → v < 2 ^ 64 → ((n : ℕ) × RoundsUp v n) ⊎ Refused v
unfolding round_up_to_nearest_pow2 bit_length
round_up_to_nearest_pow2_lem zero h = inr (record { result = refl; outside = inl refl })
round_up_to_nearest_pow2_lem (suc v) h = elim (above_zero v h) [
  | inl r ↦ inl (bit_length 64 v, r)
  | inr r ↦ inr r
]

-- ===== src/Allocator/Provide.antt =====
-- `Header::provide` on a well-formed block: no arithmetic wraps, its `assert!` holds, and what it
-- leaves tiles the block.
use native.Mathlib.Nat.{one-le-pow, mul-mod_left, div-add-mod', div-one, mod-lt, zero-add}
use mushix.Word.Shift.{two-pow-lt}
use mushix.Prelude.{
  ℕ, ◌+◌, ◌-◌, ◌*◌, ◌/◌, ◌%◌, ◌^◌, ◌≤◌, ◌<◌, ◌≡◌, ap, arith, All, some, ok, bit_and,
}
use mushix.Word.{bit_not, sub64}
use mushix.Word.Fields.{clear_field, pow-add}
use mushix.Allocator.{Header, end_addr, allocated_addr, header_for_allocated, carve, split}
use mushix.Allocator.Blocks.{IsBlock, Tiles, finish}

align_down_split :
    (x k t : ℕ) → x < 2 ^ (k + t) → bit_and x (bit_not (k + t) (2 ^ k - 1)) ≡ x / 2 ^ k * 2 ^ k
align_down_split x k t h =
    let c : bit_and x (bit_not (0 + (k + t)) ((2 ^ k - 1) * 2 ^ 0))
        ≡ x / 2 ^ 0 / 2 ^ k * 2 ^ k * 2 ^ 0 + x % 2 ^ 0 =
      clear_field 0 k t x (rw (zero-add (k + t)) h) in
    let shift : (2 ^ k - 1) * 2 ^ 0 ≡ 2 ^ k - 1 = omega arith in
    let down : x / 2 ^ 0 / 2 ^ k * 2 ^ k * 2 ^ 0 + x % 2 ^ 0 ≡ x / 2 ^ k * 2 ^ k =
      rw (div-one x) (omega arith) in
    rw (zero-add (k + t), shift, down) at c

-- `x & !(align - 1)` for a power of two.
align_down :
    (x k : ℕ) → x < 2 ^ 64 → k < 64 → bit_and x (bit_not 64 (sub64 (2 ^ k) 1)) ≡ x / 2 ^ k * 2 ^ k
align_down x k hx hk =
    let e : k + (64 - k) ≡ 64 = omega arith in
    let one_less : sub64 (2 ^ k) 1 ≡ 2 ^ k - 1 =
      omega (arith, one-le-pow k 2, two-pow-lt k 64 hk) in
    rw one_less (rw e at (align_down_split x k (64 - k) (rw e hx)))

pub two-pow-mod : (k : ℕ) → 5 ≤ k → 2 ^ k % 32 ≡ 0
two-pow-mod k h =
    let e : 5 + (k - 5) ≡ k = omega arith in
    omega (arith, pow-add 5 (k - 5), ap (λ (m : ℕ). 2 ^ m) e)

down-mod : (q k : ℕ) → 5 ≤ k → q * 2 ^ k % 32 ≡ 0
down-mod q k h =
    let e : 5 + (k - 5) ≡ k = omega arith in
    omega (arith, ap (λ (m : ℕ). q * m) (pow-add 5 (k - 5)), ap (λ (m : ℕ). q * 2 ^ m) e)

-- The size and the alignment that `provide` works with: powers of two from 32 on.
pub record Rounded (h : Header) (s j : ℕ) : Type 0 where
  pub block : IsBlock h
  pub size_granular : s % 32 ≡ 0
  pub size_min : 32 ≤ s
  pub align_min : 5 ≤ j
  pub align_bound : j < 64
  pub fits : s + 64 + 2 ^ j ≤ h.size

module _ {h : Header} {s j : ℕ} (r : Rounded h s j) where
  abbrev pub target : ℕ
  target = allocated_addr h s (2 ^ j)

  target_down : target ≡ (finish h - s) / 2 ^ j * 2 ^ j
  target_down =
      let start : sub64 (end_addr h) s ≡ finish h - s = omega (arith, r.block.in_space, r.fits) in
      rw start (align_down (finish h - s) j (omega (arith, r.block.in_space)) r.align_bound)

  -- The pointer is aligned, and leaves less than the alignment behind its block.
  pub target_lem :
      (target % 32 ≡ 0)
      × (target ≤ finish h - s)
      × (finish h - s < target + 2 ^ j)
      × (target % 2 ^ j ≡ 0)
  target_lem = rw target_down (
    down-mod ((finish h - s) / 2 ^ j) j r.align_min,
    omega (arith, div-add-mod' (finish h - s) (2 ^ j)),
    omega (
      arith,
      div-add-mod' (finish h - s) (2 ^ j),
      mod-lt (finish h - s) {m = 2 ^ j} (one-le-pow j 2 (omega arith)),
    ),
    mul-mod_left ((finish h - s) / 2 ^ j) (2 ^ j),
  )

  abbrev pub allocated : Header
  allocated = header_for_allocated h s (2 ^ j)

  pub allocated_lem :
      (allocated.addr + 32 ≡ target)
      × (allocated.size ≡ s + 32)
      × (h.addr + 32 ≤ allocated.addr)
      × (end_addr allocated ≡ target + s)
      × (finish allocated ≡ target + s)
      × (end_addr h ≡ finish h)
      × (target + s ≤ finish h)
  allocated_lem = omega (arith, target_lem, r.block.in_space, r.fits, r.size_min, r.align_min)

  pub split_lem : split h s (2 ^ j) ≡ ok (some (carve h s (2 ^ j)))
  unfolding split
  split_lem = ground (arith, allocated_lem, target_lem, r.fits, r.block.in_space, r.size_min)

  pub carve-Tiles : Tiles h.addr (carve h s (2 ^ j)).blocks (finish h)
  carve-Tiles = ground (arith, allocated_lem, target_lem, r.fits, r.block.in_space, r.size_min)

  pub carve-IsBlock : All IsBlock (carve h s (2 ^ j)).blocks
  carve-IsBlock =
      ground (arith, allocated_lem, target_lem, r.fits, r.block, r.size_min, r.size_granular)

-- ===== src/Allocator/Request.antt =====
-- `Header::provide` at the size and alignment of a valid layout.
use native.Mathlib.Nat.{mul-mod_left, div-add-mod', pow-le-pow_right, one-le-pow}
use mushix.Prelude.{
  ℕ, ◌+◌, ◌-◌, ◌*◌, ◌/◌, ◌%◌, ◌^◌, ◌≤◌, ◌<◌, max, ◌≡◌, ◌∙◌, ap, ◌⊎◌, inl, inr, refl, arith, true,
  false, List, ◌∷◌, All, none, some, ok, dec_lt, dec_le, Bool-cases,
}
use mushix.Word.Fields.{pow-add}
use mushix.Allocator.{Header, carve, provide_rounded, provide, Provided}
use mushix.Allocator.Pow2.{RoundsUp, round_up_to_nearest_pow2_lem}
use mushix.Allocator.Blocks.{IsBlock, Tiles, finish}
use mushix.Allocator.Provide.{
  Rounded, target, two-pow-mod, target_lem, allocated_lem, split_lem, carve-Tiles, carve-IsBlock,
}

-- `core::alloc::Layout` with alignment `2 ^ j`: the size, rounded up to the alignment, fits `isize`.
pub record IsLayout (size j : ℕ) : Type 0 where
  pub fits : size + 2 ^ j ≤ 2 ^ 63

-- What a request gets out of a block.
pub record Carved (h : Header) (size j : ℕ) (p : Provided) : Type 0 where
  pub free : h.is_allocated ≡ false
  pub tiles : Tiles h.addr p.blocks (finish h)
  pub good : All IsBlock p.blocks
  pub aligned : p.ptr % 2 ^ j ≡ 0
  pub inside : (h.addr + 64 ≤ p.ptr) × (p.ptr + size ≤ finish h)
  -- the allocated block holds the request behind its header, between two free blocks
  pub rest : Header
  pub own : Header
  pub padding : List Header
  pub parts : p.blocks ≡ rest ∷ own ∷ padding
  pub own_lem : (own.addr + 32 ≡ p.ptr) × (p.ptr + size ≤ finish own) × (own.is_allocated ≡ true)
  pub exponent : ℕ
  pub rounds : RoundsUp size exponent
  pub own_size : own.size ≡ max (2 ^ exponent) 32 + 32
  pub rest_free : rest.is_allocated ≡ false
  pub padding_free : All (λ b. b.is_allocated ≡ false) padding

mod-pow_mono : (x i j : ℕ) → i ≤ j → x % 2 ^ j ≡ 0 → x % 2 ^ i ≡ 0
mod-pow_mono x i j h e =
    let q : ℕ = x / 2 ^ j in
    let whole : x ≡ q * 2 ^ (j - i) * 2 ^ i = omega (
      arith,
      div-add-mod' x (2 ^ j),
      ap (λ (m : ℕ). q * m) (pow-add (j - i) i),
      ap (λ (m : ℕ). q * 2 ^ m) (exponent i j h),
    ) in
    ap (λ (m : ℕ). m % 2 ^ i) whole ∙ mul-mod_left (q * 2 ^ (j - i)) (2 ^ i)
  where
    exponent : (i j : ℕ) → i ≤ j → j - i + i ≡ j
    exponent i j h = omega arith

-- `max(2 ^ n, HEADER_SIZE)` is a power of two from 32 on.
at_least_32 : (n : ℕ) → n < 64 → (m : ℕ) × (max (2 ^ n) 32 ≡ 2 ^ m) × (5 ≤ m) × (n ≤ m) × (m < 64)
at_least_32 n h = elim (dec_lt n 5) [
  | yes p ↦ (
    5,
    omega (arith, pow-le-pow_right {n = 2} (omega arith) {i = n} {j = 5} (omega arith)),
    omega arith,
    omega arith,
    omega arith,
  )
  | no p ↦ (
    n,
    omega (arith, pow-le-pow_right {n = 2} (omega arith) {i = 5} {j = n} (omega arith)),
    omega arith,
    omega arith,
    h,
  )
]

-- The sum in `can_provide` does not wrap for a valid layout.
no_wrap :
    (size j n : ℕ)
    → IsLayout size j
    → RoundsUp size n
    → max (2 ^ n) 32 + 64 + max (2 ^ j) 32 < 2 ^ 64
no_wrap size j n v r = omega (
  arith,
  v.fits,
  r.least,
  pow-le-pow_right {n = 2} (omega arith) {i = n} {j = 63} (omega (arith, r.exponent)),
)

align-lt : (j : ℕ) → 2 ^ j ≤ 2 ^ 63 → j < 64
align-lt j h = elim (dec_lt j 64) [
  | yes p ↦ p
  | no p ↦
      absurd (omega (arith, pow-le-pow_right {n = 2} (omega arith) {i = 64} {j = j} (omega arith)))
]

module _ (h : Header) (size j n : ℕ) (b : IsBlock h) (v : IsLayout size j)
    (r : RoundsUp size n) where
  module _ (m k : ℕ) (em : max (2 ^ n) 32 ≡ 2 ^ m) (ek : max (2 ^ j) 32 ≡ 2 ^ k) (lm : 5 ≤ m)
      (lk : 5 ≤ k) (le : j ≤ k) (lt : k < 64) (free : h.is_allocated ≡ false)
      (room : max (2 ^ n) 32 + 64 + max (2 ^ j) 32 ≤ h.size) where
    fits : Rounded h (2 ^ m) k
    fits = record {
      block = b;
      size_granular = two-pow-mod m lm;
      size_min = omega arith;
      align_min = lk;
      align_bound = lt;
      fits = omega arith;
    }

    carved_at : (p : Provided) × (provide h size (2 ^ j) ≡ ok (some p)) × Carved h size j p
    unfolding provide provide_rounded
    carved_at = (
      carve h (2 ^ m) (2 ^ k),
      rw (r.result, provide, em, ek) (ground (arith, split_lem fits, no_wrap size j n v r)),
      record {
        free = free;
        tiles = carve-Tiles fits;
        good = carve-IsBlock fits;
        aligned = mod-pow_mono (target fits) j k le (target_lem fits).3;
        inside = omega (arith, allocated_lem fits, r.enough);
        rest = _;
        own = _;
        padding = _;
        parts = refl;
        own_lem =
            (omega (arith, allocated_lem fits), omega (arith, allocated_lem fits, r.enough), refl);
        exponent = n;
        rounds = r;
        own_size = omega (arith, allocated_lem fits);
        rest_free = free;
        padding_free = ground arith;
      },
    )

  -- A free block with room for the rounded request is carved.
  carved :
      h.is_allocated ≡ false
      → max (2 ^ n) 32 + 64 + max (2 ^ j) 32 ≤ h.size
      → (p : Provided) × (provide h size (2 ^ j) ≡ ok (some p)) × Carved h size j p
  carved free room =
      let (m, em, lm, _, _) = at_least_32 n r.exponent in
      let (k, ek, lk, le, lt) = at_least_32 j (align-lt j (omega (arith, v.fits))) in
      carved_at m k em ek lm lk le lt free room

  pub refused :
      (h.is_allocated ≡ true) ⊎ (h.size < max (2 ^ n) 32 + 64 + max (2 ^ j) 32)
      → provide h size (2 ^ j) ≡ ok none
  unfolding provide provide_rounded
  refused why = rw (r.result, provide) (ground (arith, no_wrap size j n v r))

-- `provide` never panics on a block of a heap. It carves the request out of a free block that has
-- room for it, and answers `None` otherwise; a free block with twice the size and the alignment to
-- spare always has room.
pub provide_lem :
    (h : Header) (size j : ℕ)
    → IsBlock h
    → IsLayout size j
    → ((p : Provided) × (provide h size (2 ^ j) ≡ ok (some p)) × Carved h size j p)
      ⊎ ((provide h size (2 ^ j) ≡ ok none)
          × ((h.is_allocated ≡ true) ⊎ (size ≡ 0) ⊎ (h.size < 2 * size + 2 ^ j + 128)))
unfolding provide
provide_lem h size j b v = elim (round_up_to_nearest_pow2_lem size (omega (arith, v.fits))) [
  | inl (n, r) ↦ elim (Bool-cases h.is_allocated) [
    | inl used ↦ inr (refused h size j n b v r (inl used), inl used)
    | inr free ↦ elim (dec_le (max (2 ^ n) 32 + 64 + max (2 ^ j) 32) h.size) [
      | yes room ↦ inl (carved h size j n b v r free room)
      | no full ↦ inr (
        refused h size j n b v r (inr (omega (arith, full))),
        inr (inr (omega (arith, full, r.least))),
      )
    ]
  ]
  | inr r ↦
      inr (rw (r.result, provide), inr (inl (omega (arith, r.outside, v.fits, one-le-pow j 2))))
]

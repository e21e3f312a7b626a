-- ===== src/Word/Split.antt =====
-- A word cut in two at any bit: the bit operations act on the high and the low part apart.
use mathlib.Core.WellFounded
use native.Mathlib.Nat.{pow-suc, one-le-pow}
use mushix.Prelude.{
  ℕ, zero, suc, ◌+◌, ◌-◌, ◌*◌, ◌/◌, ◌^◌, ◌<◌, bit_and, bit_or, ◌≡◌, refl, arith, lt_wf,
}
use mushix.Word.Step.{bit_and_step, bit_or_step}

doubled : (m j : ℕ) → m * 2 ^ suc j ≡ 2 * (m * 2 ^ j)
doubled m j = let e : 2 ^ suc j ≡ 2 ^ j * 2 = pow-suc 2 j in rw e (omega arith)

pub bit_and-split :
    (k q r m n : ℕ)
    → r < 2 ^ k
    → n < 2 ^ k
    → bit_and (q * 2 ^ k + r) (m * 2 ^ k + n) ≡ bit_and q m * 2 ^ k + bit_and r n
bit_and-split zero q zero m zero hr hn = ground arith
bit_and-split zero q zero m (suc n) hr hn = absurd (omega arith)
bit_and-split zero q (suc r) m n hr hn = absurd (omega arith)
bit_and-split (suc k) q r m n hr hn = ground (
  arith,
  bit_and_step (q * 2 ^ suc k + r) (m * 2 ^ suc k + n),
  bit_and_step r n,
  doubled q k,
  doubled m k,
  doubled (bit_and q m) k,
  pow-suc 2 k,
  bit_and-split k q (r / 2) m (n / 2) (omega arith) (omega arith),
)

pub bit_or-split :
    (k q r m n : ℕ)
    → r < 2 ^ k
    → n < 2 ^ k
    → bit_or (q * 2 ^ k + r) (m * 2 ^ k + n) ≡ bit_or q m * 2 ^ k + bit_or r n
bit_or-split zero q zero m zero hr hn = ground arith
bit_or-split zero q zero m (suc n) hr hn = absurd (omega arith)
bit_or-split zero q (suc r) m n hr hn = absurd (omega arith)
bit_or-split (suc k) q r m n hr hn = ground (
  arith,
  bit_or_step (q * 2 ^ suc k + r) (m * 2 ^ suc k + n),
  bit_or_step r n,
  doubled q k,
  doubled m k,
  doubled (bit_or q m) k,
  pow-suc 2 k,
  bit_or-split k q (r / 2) m (n / 2) (omega arith) (omega arith),
)

-- Induction that halves the number.
by_halving {ℓ} : (P : ℕ → Type ℓ) → P 0 → ((n : ℕ) → P (suc n / 2) → P (suc n)) → (n : ℕ) → P n
by_halving P base half n = WellFounded.induction lt_wf {C = P} n descend
  where
    descend : (k : ℕ) → ((m : ℕ) → m < k → P m) → P k
    descend zero below = base
    descend (suc k) below = half k (below (suc k / 2) (omega arith))

pub bit_or-zero : (x : ℕ) → bit_or x 0 ≡ x
bit_or-zero = by_halving (λ x. bit_or x 0 ≡ x) refl (λ n h. omega (arith, bit_or_step (suc n) 0, h))

pub zero-bit_or : (y : ℕ) → bit_or 0 y ≡ y
zero-bit_or = by_halving (λ y. bit_or 0 y ≡ y) refl (λ n h. omega (arith, bit_or_step 0 (suc n), h))

pub bit_and-zero : (x : ℕ) → bit_and x 0 ≡ 0
bit_and-zero =
    by_halving (λ x. bit_and x 0 ≡ 0) refl (λ n h. omega (arith, bit_and_step (suc n) 0, h))

pub zero-bit_and : (y : ℕ) → bit_and 0 y ≡ 0
zero-bit_and =
    by_halving (λ y. bit_and 0 y ≡ 0) refl (λ n h. omega (arith, bit_and_step 0 (suc n), h))

-- All ones are neutral for `&` on what fits.
pub bit_and-ones : (k a : ℕ) → a < 2 ^ k → bit_and a (2 ^ k - 1) ≡ a
bit_and-ones zero zero h = refl
bit_and-ones zero (suc a) h = absurd (omega arith)
bit_and-ones (suc k) a h = ground (
  arith,
  bit_and_step a (2 ^ suc k - 1),
  pow-suc 2 k,
  one-le-pow k 2,
  bit_and-ones k (a / 2) (omega (arith, pow-suc 2 k)),
)

abbrev SwapsAt : (ℕ → ℕ → ℕ) → ℕ → Type 0
SwapsAt f a = (b : ℕ) → f a b ≡ f b a

pub bit_and_comm : (a b : ℕ) → bit_and a b ≡ bit_and b a
bit_and_comm =
    by_halving (SwapsAt bit_and) (λ b. omega (arith, bit_and-zero b, zero-bit_and b))
      (λ n h b. omega (arith, bit_and_step (suc n) b, bit_and_step b (suc n), h (b / 2)))

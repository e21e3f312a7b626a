-- ===== src/Word/Fields.antt =====
-- Bit fields as arithmetic: what `&` with a mask, clearing and setting a field come to.
use native.Mathlib.Nat.{
  pow-suc, one-le-pow, mul_assoc, mul-le-mul_right, mul-div-le, lt_of_mul-lt-mul_left,
}
use native.Mathlib.Nat.{div-eq_of_lt-le, mul-add-mod_self_right, mod-eq_of_lt, mod-lt, div-add-mod'}
use native.Mathlib.Nat.{add-mul-div_right, add-mul-mod_self_right, div-div-eq-div-mul}
use mushix.Prelude.{
  ℕ, zero, suc, ◌+◌, ◌-◌, ◌*◌, ◌/◌, ◌%◌, ◌^◌, ◌≤◌, ◌<◌, bit_and, bit_or, ◌≡◌, ap, sym, ◌∙◌, arith,
  ◌⊎◌, inl, inr,
}
use mushix.Word.{bit_not}
use mushix.Word.Split.{
  bit_and-split, bit_or-split, bit_or-zero, zero-bit_or, bit_and-zero, bit_and-ones,
}

pub pow-add : (s k : ℕ) → 2 ^ (s + k) ≡ 2 ^ s * 2 ^ k
pow-add s zero = ground arith
pow-add s (suc k) =
    ground (arith, pow-add s k, pow-suc 2 (s + k), pow-suc 2 k, mul_assoc (2 ^ s) (2 ^ k) 2)

-- The field of `k` bits at bit `s`, and the word with that field replaced.
abbrev pub field : ℕ → ℕ → ℕ → ℕ
field s k x = x / 2 ^ s % 2 ^ k

abbrev pub with_field : ℕ → ℕ → ℕ → ℕ → ℕ
with_field s k v x = (x / 2 ^ s / 2 ^ k * 2 ^ k + v) * 2 ^ s + x % 2 ^ s

-- A mask of `k` low bits is the remainder by `2 ^ k`.
pub bit_and_mask : (k a : ℕ) → bit_and a (2 ^ k - 1) ≡ a % 2 ^ k
bit_and_mask k a = ground (
  arith,
  one-le-pow k 2,
  bit_and-split k (a / 2 ^ k) (a % 2 ^ k) 0 (2 ^ k - 1),
  bit_and-zero (a / 2 ^ k),
  bit_and-ones k (a % 2 ^ k),
)

-- Setting a field that is clear adds it.
pub bit_or_field :
    (s k v q r : ℕ)
    → v < 2 ^ k
    → r < 2 ^ s
    → bit_or (v * 2 ^ s) (q * 2 ^ k * 2 ^ s + r) ≡ (q * 2 ^ k + v) * 2 ^ s + r
bit_or_field s k v q r hv hr = ground (
  arith,
  bit_or-split s v 0 (q * 2 ^ k) r,
  bit_or-split k 0 v q 0,
  zero-bit_or r,
  zero-bit_or q,
  bit_or-zero v,
)

div-lt : (x S N : ℕ) → x < S * N → x / S < N
div-lt x S N h = lt_of_mul-lt-mul_left S (omega (arith, mul-div-le x S, h))

pub pred-mul : (n m : ℕ) → 1 ≤ n → (n - 1) * m + m ≡ n * m
pred-mul zero m h = elim h [ ]
pred-mul (suc n) m h = let e : suc n - 1 ≡ n = omega arith in rw e (omega arith)

mask_arith :
    (S K T : ℕ) → 1 ≤ S → 1 ≤ K → 1 ≤ T → S * (K * T) - 1 - (K - 1) * S ≡ (T - 1) * K * S + (S - 1)
mask_arith S K T p q r = omega (arith, pred-mul K S q, ap (λ (m : ℕ). m * S) (pred-mul T K r))

bit_not-mask :
    (s k t : ℕ)
    → bit_not (s + (k + t)) ((2 ^ k - 1) * 2 ^ s) ≡ (2 ^ t - 1) * 2 ^ k * 2 ^ s + (2 ^ s - 1)
bit_not-mask s k t =
    rw (pow-add s (k + t), pow-add k t)
      (mask_arith (2 ^ s) (2 ^ k) (2 ^ t) (one-le-pow s 2 (omega arith))
        (one-le-pow k 2 (omega arith)) (one-le-pow t 2 (omega arith)))

-- `x & !(mask << s)` at a width of `s + k + t` bits.
pub clear_field :
    (s k t x : ℕ)
    → x < 2 ^ (s + (k + t))
    → bit_and x (bit_not (s + (k + t)) ((2 ^ k - 1) * 2 ^ s))
      ≡ x / 2 ^ s / 2 ^ k * 2 ^ k * 2 ^ s + x % 2 ^ s
clear_field s k t x h = ground (
  arith,
  bit_not-mask s k t,
  one-le-pow s 2,
  one-le-pow k 2,
  one-le-pow t 2,
  pow-add s (k + t),
  pow-add k t,
  div-lt x (2 ^ s) (2 ^ k * 2 ^ t),
  div-lt (x / 2 ^ s) (2 ^ k) (2 ^ t),
  bit_and-split s (x / 2 ^ s) (x % 2 ^ s) ((2 ^ t - 1) * 2 ^ k) (2 ^ s - 1),
  bit_and-split k (x / 2 ^ s / 2 ^ k) (x / 2 ^ s % 2 ^ k) (2 ^ t - 1) 0,
  bit_and-ones s (x % 2 ^ s),
  bit_and-ones t (x / 2 ^ s / 2 ^ k),
  bit_and-zero (x / 2 ^ s % 2 ^ k),
)

join-div : (P q r : ℕ) → r < P → (q * P + r) / P ≡ q
join-div P q r h = div-eq_of_lt-le P (omega arith) (omega arith)

join-mod : (P q r : ℕ) → r < P → (q * P + r) % P ≡ r
join-mod P q r h = mul-add-mod_self_right q P r ∙ mod-eq_of_lt h

pub mod-pow-lt : (x s : ℕ) → x % 2 ^ s < 2 ^ s
mod-pow-lt x s = mod-lt x (one-le-pow s 2 (omega arith))

with_field-div : (s k v x : ℕ) → with_field s k v x / 2 ^ s ≡ x / 2 ^ s / 2 ^ k * 2 ^ k + v
with_field-div s k v x = join-div (2 ^ s) _ (x % 2 ^ s) (mod-pow-lt x s)

with_field-mod : (s k v x : ℕ) → with_field s k v x % 2 ^ s ≡ x % 2 ^ s
with_field-mod s k v x = join-mod (2 ^ s) _ (x % 2 ^ s) (mod-pow-lt x s)

-- The field that was set reads back.
pub field-with_field_self : (s k v x : ℕ) → v < 2 ^ k → field s k (with_field s k v x) ≡ v
field-with_field_self s k v x h =
    rw (with_field-div s k v x) (join-mod (2 ^ k) (x / 2 ^ s / 2 ^ k) v h)

field-mod : (s k t x : ℕ) → field s k (x % 2 ^ (s + (k + t))) ≡ field s k x
field-mod s k t x =
    let S : ℕ = 2 ^ s in
    let r : ℕ = x % 2 ^ (s + (k + t)) in
    let q : ℕ = x / 2 ^ (s + (k + t)) in
    let whole : x ≡ r + q * 2 ^ t * 2 ^ k * 2 ^ s = omega (
      arith,
      div-add-mod' x (2 ^ (s + (k + t))),
      ap (λ (m : ℕ). q * m) (pow-add s (k + t)),
      ap (λ (m : ℕ). q * 2 ^ s * m) (pow-add k t),
    ) in
    sym (
      ap (λ (m : ℕ). m / 2 ^ s % 2 ^ k) whole
      ∙ ap (λ (m : ℕ). m % 2 ^ k)
          (add-mul-div_right r (q * 2 ^ t * 2 ^ k) (one-le-pow s 2 (omega arith)))
      ∙ add-mul-mod_self_right (r / 2 ^ s) (q * 2 ^ t) (2 ^ k))

-- A field that lies below or above the one that was set keeps its value.
field-mod_of_eq : (s k t n x : ℕ) → n ≡ s + (k + t) → field s k (x % 2 ^ n) ≡ field s k x
field-mod_of_eq s k t n x e = rw e (field-mod s k t x)

field_below :
    (s k v x s' k' t : ℕ) → s ≡ s' + (k' + t) → field s' k' (with_field s k v x) ≡ field s' k' x
field_below s k v x s' k' t e =
    sym (field-mod_of_eq s' k' t s (with_field s k v x) e)
    ∙ ap (λ (m : ℕ). field s' k' m) (with_field-mod s k v x)
    ∙ field-mod_of_eq s' k' t s x e

above_div : (s k t k' x : ℕ) → field (s + k + t) k' x ≡ x / 2 ^ s / 2 ^ k / 2 ^ t % 2 ^ k'
above_div s k t k' x = rw (
  div-div-eq-div-mul,
  div-div-eq-div-mul,
  pow-add (s + k) t,
  pow-add s k,
  mul_assoc (2 ^ s) (2 ^ k) (2 ^ t),
)

field_above :
    (s k v x s' k' t : ℕ)
    → v < 2 ^ k
    → s' ≡ s + k + t
    → field s' k' (with_field s k v x) ≡ field s' k' x
field_above s k v x s' k' t h e = rw e (
    above_div s k t k' (with_field s k v x)
    ∙ ap (λ (m : ℕ). m / 2 ^ t % 2 ^ k')
        (ap (λ (m : ℕ). m / 2 ^ k) (with_field-div s k v x)
          ∙ join-div (2 ^ k) (x / 2 ^ s / 2 ^ k) v h)
    ∙ sym (above_div s k t k' x))

pub field-with_field_ne :
    (s k v x s' k' : ℕ)
    → v < 2 ^ k
    → (s' + k' ≤ s) ⊎ (s + k ≤ s')
    → field s' k' (with_field s k v x) ≡ field s' k' x
field-with_field_ne s k v x s' k' h (inl below) =
    field_below s k v x s' k' (s - (s' + k')) (omega arith)
field-with_field_ne s k v x s' k' h (inr above) =
    field_above s k v x s' k' (s' - (s + k)) h (omega arith)

join-lt : (S K T q v r : ℕ) → q < T → v < K → r < S → (q * K + v) * S + r < S * (K * T)
join-lt S K T q v r hq hv hr = omega (
  arith,
  mul-le-mul_right {m = suc q} {n = T} K hq,
  mul-le-mul_right {m = suc (q * K + v)} {n = K * T} S
      (omega (arith, mul-le-mul_right {m = suc q} {n = T} K hq)),
)

pub with_field-lt :
    (s k t v x : ℕ) → v < 2 ^ k → x < 2 ^ (s + (k + t)) → with_field s k v x < 2 ^ (s + (k + t))
with_field-lt s k t v x h small =
    rw (pow-add s (k + t), pow-add k t)
      (join-lt (2 ^ s) (2 ^ k) (2 ^ t) (x / 2 ^ s / 2 ^ k) v (x % 2 ^ s)
        (div-lt (x / 2 ^ s) (2 ^ k) (2 ^ t) (
          div-lt x (2 ^ s) (2 ^ k * 2 ^ t)
            (omega (arith, pow-add s (k + t), ap (λ (m : ℕ). 2 ^ s * m) (pow-add k t)))))
        h (mod-pow-lt x s))

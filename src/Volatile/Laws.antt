-- ===== src/Volatile/Laws.antt =====
-- `write_bits` and `read_bits` of src/volatile.rs against fields of a word.
use native.Mathlib.Nat.{mod-eq_of_lt, one-le-pow, pow-le-pow_right}
use mushix.Prelude.{
  ℕ, ◌+◌, ◌-◌, ◌*◌, ◌/◌, ◌%◌, ◌^◌, ◌≤◌, ◌<◌, ◌≡◌, ◌⊎◌, ◌∙◌, sym, ap, arith, bit_and, bit_or, ok,
  err, if◌then◌else◌, ltb, Bool-cases, inl, inr,
}
use mushix.Word.{shl, bit_not}
use mushix.Word.Fields.{
  field, with_field, bit_and_mask, clear_field, bit_or_field, pow-add, mod-pow-lt,
  field-with_field_self, field-with_field_ne, with_field-lt,
}
use mushix.Word.Split.{bit_and_comm}
use native.Mathlib.Nat.{mul-lt-mul_of_pos_right, add_comm}
use mushix.Prelude.{ltb→lt}
use mushix.Word.Shift.{shl_lem, shr_lem, mask_lem}
use mushix.Volatile.{write_bits, read_bits}

mask_and : (k v : ℕ) → bit_and (2 ^ k - 1) v ≡ v % 2 ^ k
mask_and k v = bit_and_comm (2 ^ k - 1) v ∙ bit_and_mask k v

shifted-lt : (s k t v : ℕ) → v < 2 ^ k → v * 2 ^ s < 2 ^ (s + (k + t))
shifted-lt s k t v h = omega (
  arith,
  mul-lt-mul_of_pos_right {k = 2 ^ s} h (one-le-pow s 2 (omega arith)),
  pow-add k s,
  add_comm k s,
  pow-le-pow_right {n = 2} (omega arith) {i = s + k} {j = s + (k + t)} (omega arith),
  ap (λ (m : ℕ). 2 ^ m) (add_comm k s),
)

-- The two halves of `write_bits` for a value that fits.
write_parts :
    (s k t v old : ℕ)
    → s < s + (k + t)
    → k < s + (k + t)
    → old < 2 ^ (s + (k + t))
    → v < 2 ^ k
    → bit_or
        (shl (s + (k + t)) v s)
        (bit_and old (bit_not (s + (k + t)) (shl (s + (k + t)) (2 ^ k - 1) s)))
      ≡ with_field s k v old
write_parts s k t v old hs hk ho hv =
    rw
      (
        shl_lem (s + (k + t)) v s hs (shifted-lt s k t v hv),
        shl_lem (s + (k + t)) (2 ^ k - 1) s hs
            (shifted-lt s k t (2 ^ k - 1) (omega (arith, one-le-pow k 2))),
        clear_field s k t old ho,
      )
      (bit_or_field s k v (old / 2 ^ s / 2 ^ k) (old % 2 ^ s) hv (mod-pow-lt old s))

write_bits_split :
    (s k t v old : ℕ)
    → s < s + (k + t)
    → k < s + (k + t)
    → old < 2 ^ (s + (k + t))
    → write_bits (s + (k + t)) s k v old
      ≡ (if ltb v (2 ^ k) then ok (with_field s k v old) else err "Value out of range")
unfolding write_bits
write_bits_split s k t v old hs hk ho =
    rw (mask_lem (s + (k + t)) k hk, mask_and k v)
      (elim (Bool-cases (ltb v (2 ^ k))) [
        | inl small ↦ ground (
          arith,
          mod-eq_of_lt (ltb→lt v (2 ^ k) small),
          write_parts s k t v old hs hk ho (ltb→lt v (2 ^ k) small),
        )
        | inr big ↦ ground (arith, mod-pow-lt v k)
      ])

-- In range `write_bits` replaces the field of `k` bits at bit `s`; out of range it is an error.
pub write_bits-eq-with_field :
    (w s k v old : ℕ)
    → s < w
    → k < w
    → s + k ≤ w
    → old < 2 ^ w
    → write_bits w s k v old
      ≡ (if ltb v (2 ^ k) then ok (with_field s k v old) else err "Value out of range")
write_bits-eq-with_field w s k v old hs hk hw ho =
    let e : w ≡ s + (k + (w - s - k)) = omega arith in
    rw (sym e) at
      (write_bits_split s k (w - s - k) v old (rw (sym e) hs) (rw (sym e) hk) (rw (sym e) ho))

pub read_bits-eq-field : (w s k x : ℕ) → s < w → k < w → read_bits w s k x ≡ field s k x
unfolding read_bits
read_bits-eq-field w s k x hs hk =
    rw (shr_lem w x s hs, mask_lem w k hk) (bit_and_mask k (x / 2 ^ s))

-- The field that is written reads back, every field that it does not overlap is kept, and the
-- register stays a word.
written :
    (w s k v old : ℕ)
    → s < w
    → k < w
    → s + k ≤ w
    → old < 2 ^ w
    → v < 2 ^ k
    → (with_field s k v old < 2 ^ w)
      × (read_bits w s k (with_field s k v old) ≡ v)
      × ((s' k' : ℕ)
          → s' < w
          → k' < w
          → (s' + k' ≤ s) ⊎ (s + k ≤ s')
          → read_bits w s' k' (with_field s k v old) ≡ read_bits w s' k' old)
written w s k v old hs hk hw ho hv = (
  small,
  read_bits-eq-field w s k (with_field s k v old) hs hk ∙ field-with_field_self s k v old hv,
  λ s' k' hs' hk' apart.
      read_bits-eq-field w s' k' (with_field s k v old) hs' hk'
      ∙ field-with_field_ne s k v old s' k' hv apart
      ∙ sym (read_bits-eq-field w s' k' old hs' hk'),
)
  where
    e : w ≡ s + (k + (w - s - k))
    e = omega arith

    small : with_field s k v old < 2 ^ w
    small = rw e (with_field-lt s k (w - s - k) v old hv (rw (sym e) ho))

-- For a field that lies inside the register: when the value fits the field, the write is accepted,
-- the field reads back, every field that it does not overlap is kept, and the register stays a
-- word; and when the value does not fit, the write is refused.
pub write_bits-read_bits :
    (w s k v old : ℕ)
    → s < w
    → k < w
    → s + k ≤ w
    → old < 2 ^ w
    → ((v < 2 ^ k)
        × (new : ℕ) × (write_bits w s k v old ≡ ok new)
        × (new < 2 ^ w)
        × (read_bits w s k new ≡ v)
        × ((s' k' : ℕ)
            → s' < w
            → k' < w
            → (s' + k' ≤ s) ⊎ (s + k ≤ s')
            → read_bits w s' k' new ≡ read_bits w s' k' old))
      ⊎ ((2 ^ k ≤ v) × (write_bits w s k v old ≡ err "Value out of range"))
write_bits-read_bits w s k v old hs hk hw ho = elim (Bool-cases (ltb v (2 ^ k))) [
  | inl fits ↦
      let (word, reads, kept) = written w s k v old hs hk hw ho (ltb→lt v (2 ^ k) fits) in
      inl (
        ltb→lt v (2 ^ k) fits,
        with_field s k v old,
        ground (arith, write_bits-eq-with_field w s k v old),
        word,
        reads,
        kept,
      )
  | inr over ↦ inr (ground (arith, over), ground (arith, write_bits-eq-with_field w s k v old))
]

-- ===== src/Acpi/Tables.antt =====
-- Which table `find_table` finds.
use mushix.Prelude.{
  ℕ, zero, suc, ◌+◌, ◌-◌, ◌*◌, ◌/◌, ◌<◌, ◌≤◌, ◌≡◌, ◌∙◌, ap, sym, refl, arith, Bool, true, false,
  List, Option, none, some, leb, ltb, ok, panic, Bool-cases, ◌⊎◌, inl, inr,
}
use mushix.Acpi.{
  Memory, table_length, signature, same_bytes, num_of_entries, entry, next, find_from, find_table,
}

-- The table that entry `k` points to has the signature.
abbrev pub has_signature : Memory → ℕ → List ℕ → ℕ → Bool
has_signature mem xsdt sig k = same_bytes (signature mem (entry mem xsdt k)) sig

-- What is found from an index on among `n` entries: the first table with the signature, or that there
-- is none.
abbrev pub First : Memory → (n : ℕ) → ℕ → List ℕ → ℕ → Option ℕ → Type 0
First mem n xsdt sig from none = (k : ℕ) → from ≤ k → k < n → has_signature mem xsdt sig k ≡ false
First mem n xsdt sig from (some table) =
    (k : ℕ) × (from ≤ k)
    × (k < n)
    × (table ≡ entry mem xsdt k)
    × (has_signature mem xsdt sig k ≡ true)
    × ((j : ℕ) → from ≤ j → j < k → has_signature mem xsdt sig j ≡ false)

module _ (mem : Memory) (xsdt : ℕ) (sig : List ℕ) (n : ℕ) where
  -- One index further back, when that one does not have the signature.
  extend :
      (from : ℕ) (r : Option ℕ)
      → has_signature mem xsdt sig from ≡ false
      → First mem n xsdt sig (from + 1) r
      → First mem n xsdt sig from r
  extend from none e h = λ k le lt. at k (le_cases from k le) lt
    where
      le_cases : (a b : ℕ) → a ≤ b → (a ≡ b) ⊎ (a + 1 ≤ b)
      le_cases a b h = omega (arith, h)

      at : (k : ℕ) → (from ≡ k) ⊎ (from + 1 ≤ k) → k < n → has_signature mem xsdt sig k ≡ false
      at k (inl eq) lt = ap (λ j. has_signature mem xsdt sig j) (sym eq) ∙ e
      at k (inr more) lt = h k more lt
  extend from (some table) e (k, le, lt, eq, has, before) =
      (k, omega (arith, le), lt, eq, has, λ j le' lt'. at j (le_cases from j le') lt')
    where
      le_cases : (a b : ℕ) → a ≤ b → (a ≡ b) ⊎ (a + 1 ≤ b)
      le_cases a b h = omega (arith, h)

      at : (j : ℕ) → (from ≡ j) ⊎ (from + 1 ≤ j) → j < k → has_signature mem xsdt sig j ≡ false
      at j (inl eq) lt = ap (λ i. has_signature mem xsdt sig i) (sym eq) ∙ e
      at j (inr more) lt = before j more lt

  find_from_lem :
      (fuel from : ℕ)
      → num_of_entries mem xsdt ≡ ok n
      → from ≤ n
      → n < fuel + from
      → (r : Option ℕ) × (find_from fuel mem xsdt sig from ≡ ok r) × First mem n xsdt sig from r
  unfolding find_from next
  find_from_lem zero from e le h = absurd (omega (arith, h, le))
  find_from_lem (suc fuel) from e le h = elim (le_or_end from n le) [
    | inl over ↦
        let reached : leb n from ≡ true = ground (arith, over) in
        (none, rw (e, reached) refl, λ k le lt. absurd (omega (arith, over, le, lt)))
    | inr inside ↦
        let more : leb n from ≡ false = ground (arith, inside) in
        elim (Bool-cases (has_signature mem xsdt sig from)) [
          | inl has ↦ (
            some (entry mem xsdt from),
            rw (e, more, has) refl,
            (from, omega arith, inside, refl, has, λ j le lt. absurd (omega (arith, le, lt))),
          )
          | inr other ↦
              let (r, runs, first) =
                find_from_lem fuel (from + 1) e (omega (arith, inside)) (omega (arith, h)) in
              (r, rw (e, more, other) runs, extend from r other first)
        ]
  ]
    where
      le_or_end : (a b : ℕ) → a ≤ b → (a ≡ b) ⊎ (a < b)
      le_or_end a b h = omega (arith, h)

-- `find_table` on an XSDT of any length. A length below the 36 bytes of the header makes it panic.
-- Otherwise, with as many entries of 8 bytes as fit behind the header, it returns the first entry
-- whose table has the signature, and none only when no entry's table has it.
pub find_table_lem :
    (mem : Memory) (xsdt : ℕ) (sig : List ℕ)
    → ((table_length mem xsdt < 36)
        × (find_table mem xsdt sig ≡ panic "attempt to subtract with overflow"))
      ⊎ ((n : ℕ) × (36 + 8 * n ≤ table_length mem xsdt)
          × (table_length mem xsdt < 36 + 8 * n + 8)
          × (r : Option ℕ) × (find_table mem xsdt sig ≡ ok r)
          × First mem n xsdt sig 0 r)
unfolding find_table find_from next num_of_entries
find_table_lem mem xsdt sig = elim (Bool-cases (ltb (table_length mem xsdt) 36)) [
  | inl short ↦ inl (ground (arith, short), rw short refl)
  | inr whole ↦
      let n = (table_length mem xsdt - 36) / 8 in
      let (r, runs, first) =
        find_from_lem mem xsdt sig n (suc (table_length mem xsdt / 8)) 0 (rw whole refl)
          (omega arith) (omega arith) in
      inr (n, ground (arith, whole), ground (arith, whole), r, runs, first)
]

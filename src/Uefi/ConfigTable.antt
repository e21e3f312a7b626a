-- ===== src/Uefi/ConfigTable.antt =====
-- The lookup of a configuration table.
use mushix.Prelude.{
  ℕ, zero, suc, ◌+◌, ◌<◌, ◌≤◌, ◌≡◌, refl, arith, true, false, Bool-cases, inl, inr, Option, none,
  some, ℕ_discrete,
}
use mushix.Uefi.{EfiGuid, EfiConfigurationTable, same_guid, lookup_from, lookup_config_table}

-- No table from `i` up to `n` has the identifier.
abbrev pub Misses : (ℕ → EfiConfigurationTable) → EfiGuid → (i n : ℕ) → Type 0
Misses tables guid i n = (k : ℕ) → i ≤ k → k < n → same_guid (tables k).vendor_guid guid ≡ false

-- The first table from `i` up to `n` that has the identifier.
abbrev pub First :
    (ℕ → EfiConfigurationTable) → EfiGuid → (i n : ℕ) → Option EfiConfigurationTable → Type 0
First tables guid i n none = Misses tables guid i n
First tables guid i n (some t) =
    (k : ℕ) × (i ≤ k)
    × (k < n)
    × (t ≡ tables k)
    × (same_guid (tables k).vendor_guid guid ≡ true)
    × Misses tables guid i k

one_more :
    (tables : ℕ → EfiConfigurationTable) (guid : EfiGuid) (i n : ℕ)
    → same_guid (tables i).vendor_guid guid ≡ false
    → Misses tables guid (i + 1) n
    → Misses tables guid i n
one_more tables guid i n miss rest k from below = elim (ℕ_discrete k i) [
  | yes here ↦ rw here miss
  | no later ↦ rest k (omega arith) below
]

First-step :
    (tables : ℕ → EfiConfigurationTable) (guid : EfiGuid) (i n : ℕ)
    (o : Option EfiConfigurationTable)
    → same_guid (tables i).vendor_guid guid ≡ false
    → First tables guid (i + 1) n o
    → First tables guid i n o
First-step tables guid i n none miss rest = one_more tables guid i n miss rest
First-step tables guid i n (some t) miss (k, from, below, same, met, before) =
    (k, omega arith, below, same, met, one_more tables guid i k miss before)

lookup_from-First :
    (tables : ℕ → EfiConfigurationTable) (guid : EfiGuid) (left i n : ℕ)
    → i + left ≡ n
    → First tables guid i n (lookup_from tables guid left i)
unfolding lookup_from
lookup_from-First tables guid zero i n e = λ k from below. absurd (omega arith)
lookup_from-First tables guid (suc left) i n e =
    elim (Bool-cases (same_guid (tables i).vendor_guid guid)) [
      | inl met ↦
          rw met (i, omega arith, omega arith, refl, met, λ k from below. absurd (omega arith))
      | inr miss ↦ rw miss (
          First-step tables guid i n _ miss
            (lookup_from-First tables guid left (i + 1) n (omega arith)))
    ]

-- `lookup_config_table` gives the first of the tables that has the identifier, and none only when none of
-- them has it.
pub lookup_config_table-First :
    (number_of_table_entries : ℕ) (configuration_table : ℕ → EfiConfigurationTable) (guid : EfiGuid)
    → First configuration_table guid 0 number_of_table_entries
        (lookup_config_table number_of_table_entries configuration_table guid)
unfolding lookup_config_table
lookup_config_table-First n tables guid = lookup_from-First tables guid n 0 n (omega arith)

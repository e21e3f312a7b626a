-- ===== src/Acpi/Examples.antt =====
-- A root table of two entries, of which the second is the MCFG table.
use mushix.Prelude.{
  ℕ, ◌+◌, ◌-◌, ◌*◌, ◌<◌, ◌≤◌, ◌⊎◌, ok, panic, ◌≡◌, refl, List, [], ◌∷◌, get_or, Option, some, ltb,
  if◌then◌else◌,
}
use mushix.Acpi.{Memory, table_length, find_table, find_from, next, num_of_entries, entry}
use mushix.Acpi.Tables.{First, find_table_lem}

-- The XSDT stands at 0, and the two tables at 100 and 104.
abbrev bytes : List ℕ
bytes =
    0 ∷ 0 ∷ 0 ∷ 0 ∷ 52 ∷ 0 ∷ 0 ∷ 0 ∷ 0 ∷ 0 ∷ 0 ∷ 0 ∷ 0 ∷ 0 ∷ 0 ∷ 0 ∷ 0 ∷ 0 ∷ 0 ∷ 0 ∷ 0 ∷ 0 ∷ 0 ∷ 0
    ∷ 0 ∷ 0 ∷ 0 ∷ 0 ∷ 0 ∷ 0 ∷ 0 ∷ 0 ∷ 0 ∷ 0 ∷ 0 ∷ 0 ∷ 100 ∷ 0 ∷ 0 ∷ 0 ∷ 0 ∷ 0 ∷ 0 ∷ 0 ∷ 104 ∷ 0 ∷ 0
    ∷ 0 ∷ 0 ∷ 0 ∷ 0 ∷ 0 ∷ []

abbrev tables : ℕ → ℕ
tables addr = get_or (0x48 ∷ 0x50 ∷ 0x45 ∷ 0x54 ∷ 0x4d ∷ 0x43 ∷ 0x46 ∷ 0x47 ∷ []) addr 0

abbrev memory : Memory
memory addr = if ltb addr 100 then get_or bytes addr 0 else tables (addr - 100)

abbrev mcfg_signature : List ℕ
mcfg_signature = 0x4d ∷ 0x43 ∷ 0x46 ∷ 0x47 ∷ []

finds : find_table memory 0 mcfg_signature ≡ ok (some 104)
unfolding find_table find_from next num_of_entries entry
finds = refl

find_table_lem_example :
    ((table_length memory 0 < 36)
      × (find_table memory 0 mcfg_signature ≡ panic "attempt to subtract with overflow"))
    ⊎ ((n : ℕ) × (36 + 8 * n ≤ table_length memory 0)
        × (table_length memory 0 < 36 + 8 * n + 8)
        × (r : Option ℕ) × (find_table memory 0 mcfg_signature ≡ ok r)
        × First memory n 0 mcfg_signature 0 r)
find_table_lem_example = find_table_lem memory 0 mcfg_signature

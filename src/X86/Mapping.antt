-- ===== src/X86/Mapping.antt =====
-- src/x86.rs: the four levels of page tables, and `create_mapping`.
pub mod Region
pub mod Levels
pub mod Translation
pub mod Unaligned
mod Examples
use mushix.Prelude.{
  ℕ, zero, suc, ◌+◌, Bool, ◌||◌, Option, none, some, leb, ◌==◌, if◌then◌else◌, Result, ok, err,
  panic, ◌>>=◌, ◌>>◌,
}
use mushix.Word.{add64, sub64}
use mushix.X86.{PageAttr, is_present, table, set_page, ensure_populated, calc_index}

-- A table of the level `l` is its 512 entries. An entry is its value and what it owns: the table of the
-- next level that `populate` boxed for it, or below level 1 the page, whose bytes are left out.
abbrev pub Table : ℕ → Type 0
Table zero = Unit {0}
Table (suc l) = ℕ → ℕ × Table l

abbrev pub Entry : ℕ → Type 0
Entry l = ℕ × Table l

-- `MaybeUninit::zeroed().assume_init()`
abbrev pub zeroed : (l : ℕ) → Table l
zeroed zero = tt
zeroed (suc l) = λ index. (0, zeroed l)

abbrev pub store {ℓ} : {A : Type ℓ} → (ℕ → A) → ℕ → A → ℕ → A
store t index a i = if i == index then a else t i

-- `next_level`
pub next_level : (l : ℕ) → Table (suc l) → ℕ → Option (Table l)
next_level l t index =
    if leb 512 index then none else if is_present (t index).0 then some (t index).1 else none

-- The entry of level 1 for an address, 0 where a table on the way to it is not present.
pub entry_of : (l : ℕ) → Table (suc l) → (addr : ℕ) → ℕ
entry_of zero t addr = (t (calc_index 1 addr)).0
entry_of (suc l) t addr = elim (next_level (suc l) t (calc_index (suc (suc l)) addr)) [
  | none ↦ 0
  | some next ↦ entry_of l next addr
]

-- What a round of a loop gives: what it filled, the next address and how many tables were boxed.
abbrev pub Round : Type 0 → Type 0
Round A = Result (A × ℕ × ℕ)

module _ (virt_end l : ℕ) (body : Entry l → ℕ → ℕ → Round (Entry l)) where
  -- The loop over the entries of a table of level `suc l`; fuel for the entries that are left.
  pub fill_table : (fuel : ℕ) → Table (suc l) → (addr boxed : ℕ) → Round (Table (suc l))
  fill_table zero t addr boxed = panic "more than 512 entries"
  fill_table (suc fuel) t addr boxed = do
    let index = calc_index (suc l) addr
    (e, next_addr, next_boxed) ← body (t index) addr boxed
    let filled = store t index e
    let rest = fill_table fuel filled next_addr next_boxed
    if leb 512 (index + 1) || leb virt_end next_addr
        then ok (filled, next_addr, next_boxed)
        else rest

-- The address of the n-th boxed table is a parameter.
module _ (alloc : ℕ → ℕ) (virt_start virt_end phys : ℕ) (attr : PageAttr) where
  pub fill_entry : (l : ℕ) → Entry l → (addr boxed : ℕ) → Round (Entry l)
  fill_entry zero (value, owned) addr boxed = do
    value ← set_page (sub64 (add64 phys addr) virt_start) attr
    ok ((value, owned), add64 addr 4096, boxed)
  fill_entry (suc l) (value, owned) addr boxed = do
    populated ← ensure_populated value (alloc boxed)
    _ ← table populated
    let next = if is_present value then owned else zeroed (suc l)
    let next_boxed = if is_present value then boxed else boxed + 1
    (t, addr, boxed) ← fill_table virt_end l (fill_entry l) 512 next addr next_boxed
    ok ((populated, t), addr, boxed)

  pub create_mapping : Table 4 → Result (Table 4)
  create_mapping t = do
    (t, addr, boxed) ← fill_table virt_end 3 (fill_entry 3) 512 t virt_start 0
    ok t

-- ===== src/X86/Mapping/Levels.antt =====
-- `create_mapping` fills the pages of its range through all four levels.
use native.Mathlib.Nat.{pow-suc, one-le-pow, div-div-eq-div-mul}
use mushix.Prelude.{
  ℕ, zero, suc, ◌+◌, ◌-◌, ◌*◌, ◌/◌, ◌%◌, ◌^◌, ◌<◌, ◌≤◌, ◌≡◌, min, refl, sym, ap, ◌∙◌, true, false,
  inl, inr, ◌&&◌, leb, ltb, if◌then◌else◌, ok, arith, Bool-cases, bit_or, ◌>>=◌,
}
use mushix.Word.{add64, sub64}
use mushix.X86.{
  PageAttr, read_write_kernel, attr_bits, is_present, table, populate, ensure_populated,
}
use mushix.X86.Page.{set_page-page, new_table, new_is_present, present_table}
use mushix.X86.Mapping.{
  Table, Entry, Round, zeroed, next_level, entry_of, fill_table, fill_entry, create_mapping,
}
use mushix.X86.Mapping.Region.{FillsEntry, FillsTable, fill_table_lem, index_page}

-- The entry of level 1 for the page `j` below an entry of the table of level `suc l`.
shows : (l : ℕ) → Entry l → ℕ → ℕ
shows zero e j = e.0
shows (suc l) e j = if is_present e.0 then shows l (e.1 (j / 512 ^ l % 512)) j else 0

shows-zeroed : (l j : ℕ) → shows l (0, zeroed l) j ≡ 0
unfolding shows is_present
shows-zeroed zero j = refl
shows-zeroed (suc l) j = refl

entry_of-shows :
    (l : ℕ) (t : Table (suc l)) (j : ℕ)
    → l < 4
    → entry_of l t (j * 4096) ≡ shows l (t (j / 512 ^ l % 512)) j
unfolding entry_of shows next_level
entry_of-shows zero t j h = ap (λ index. (t index).0) (index_page 0 j h)
entry_of-shows (suc l) t j h =
    let inside : leb 512 (j / 512 ^ suc l % 512) ≡ false = ground arith in
    elim (Bool-cases (is_present (t (j / 512 ^ suc l % 512)).0)) [
      | inl on ↦
          rw (index_page (suc l) j h, inside, on, entry_of) (entry_of-shows l _ j (omega arith))
      | inr off ↦ rw (index_page (suc l) j h, inside, off, entry_of) refl
    ]

block_positive : (l : ℕ) → 0 < 512 ^ l
block_positive l = one-le-pow l 512 (omega arith)

deeper : (l n : ℕ) → n / 512 ^ suc l ≡ n / 512 ^ l / 512
deeper l n = rw (pow-suc 512 l) (sym (div-div-eq-div-mul n (512 ^ l) 512))

pub kept : (value boxed : ℕ) → is_present value ≡ true → ensure_populated value boxed ≡ ok value
unfolding ensure_populated
kept value boxed on = rw on refl

pub boxed_table :
    (value next : ℕ)
    → is_present value ≡ false
    → ensure_populated value next ≡ ok (bit_or next (attr_bits read_write_kernel))
unfolding ensure_populated populate
boxed_table value next off = rw off refl

module _ (alloc : ℕ → ℕ) (start stop p virt_end : ℕ) (attr : PageAttr)
    (alloc_aligned : (n : ℕ) → alloc n % 4096 ≡ 0) (alloc_small : (n : ℕ) → alloc n < 2 ^ 64)
    (ends : (n : ℕ) → start < n → leb virt_end (n * 4096) ≡ leb stop n) (virt_small : stop ≤ 2 ^ 36)
    (phys_small : p + (stop - start) ≤ 2 ^ 52) where
  -- The entry that the page `j` is to have.
  abbrev entry : ℕ → ℕ
  entry j = bit_or ((p + (j - start)) * 4096) (attr_bits attr)

  abbrev fill : (l : ℕ) → Entry l → ℕ → ℕ → Round (Entry l)
  fill = fill_entry alloc (start * 4096) virt_end (p * 4096) attr

  abbrev FillsAt : (l : ℕ) → l < 4 → Entry l → (n boxed : ℕ) → Type 0
  FillsAt l level =
      FillsEntry virt_end start stop l entry (fill l) (shows l) ends level (512 ^ l) refl
        (block_positive l)

  page_address :
      (n : ℕ)
      → start ≤ n
      → n < stop
      → sub64 (add64 (p * 4096) (n * 4096)) (start * 4096) ≡ (p + (n - start)) * 4096
  page_address n from below = omega (arith, virt_small, phys_small)

  fill_page :
      (level : zero < 4) (e : Entry zero) (n boxed : ℕ)
      → start ≤ n
      → n < stop
      → FillsAt zero level e n boxed
  unfolding fill_entry shows
  fill_page level (value, owned) n boxed from below =
      let next : add64 (n * 4096) 4096 ≡ min stop ((n / 512 ^ zero + 1) * 512 ^ zero) * 4096 =
        omega (arith, virt_small) in
      (
        (entry n, owned),
        boxed,
        rw (page_address n from below, set_page-page (p + (n - start)) attr, next) refl,
        λ j same.
            let here : n ≡ j = omega (arith, same) in
            let inside : (leb n j && ltb j stop) ≡ true = ground arith in rw inside (ap entry here),
      )

  -- Through a populated entry into its table.
  descend :
      (l value populated address n boxed next_boxed next_addr boxed' : ℕ)
      (owned next t : Table (suc l))
      → ensure_populated value (alloc boxed) ≡ ok populated
      → table populated ≡ ok address
      → (if is_present value then owned else zeroed (suc l)) ≡ next
      → (if is_present value then boxed else boxed + 1) ≡ next_boxed
      → fill_table virt_end l (fill l) 512 next (n * 4096) next_boxed ≡ ok (t, next_addr, boxed')
      → fill (suc l) (value, owned) (n * 4096) boxed ≡ ok ((populated, t), next_addr, boxed')
  unfolding fill_entry
  descend l value populated address n boxed next_boxed next_addr boxed' owned next t e f g h run =
      rw (e, f, g, h, run) refl

  -- The pages of an entry, from those of its table.
  below_entry :
      (l : ℕ) (level : suc l < 4) (value populated address n boxed next_boxed : ℕ)
      (owned next : Table (suc l))
      → n < stop
      → ensure_populated value (alloc boxed) ≡ ok populated
      → is_present populated ≡ true
      → table populated ≡ ok address
      → (if is_present value then owned else zeroed (suc l)) ≡ next
      → (if is_present value then boxed else boxed + 1) ≡ next_boxed
      → ((j : ℕ) → shows l (next (j / 512 ^ l % 512)) j ≡ shows (suc l) (value, owned) j)
      → FillsTable virt_end start stop l entry
          (fill l)
          (shows l)
          ends
          (omega arith)
          (512 ^ l)
          refl
          (block_positive l)
          512
          next
          n
          next_boxed
      → FillsAt (suc l) level (value, owned) n boxed
  unfolding shows
  below_entry l level value populated address n boxed next_boxed owned next below e on f g h old
        (t, boxed', run, filled) =
      let grown : (n / 512 ^ l / 512 + 1) * 512 * 512 ^ l ≡ (n / 512 ^ suc l + 1) * 512 ^ suc l =
        rw (deeper l n, pow-suc 512 l) (omega arith) in
      (
        (populated, t),
        boxed',
        descend l value populated address n boxed next_boxed _ boxed' owned next t e f g h run
            ∙ rw grown refl,
        λ j same. rw on (filled j (sym (deeper l j) ∙ same ∙ deeper l n) ∙ rw (old j) refl),
      )

  zeroed-shows :
      (l value j : ℕ) (owned : Table (suc l))
      → is_present value ≡ false
      → shows l (0, zeroed l) j ≡ shows (suc l) (value, owned) j
  unfolding shows
  zeroed-shows l value j owned off = rw off (shows-zeroed l j)

  present_shows :
      (l value j : ℕ) (owned : Table (suc l))
      → is_present value ≡ true
      → shows l (owned (j / 512 ^ l % 512)) j ≡ shows (suc l) (value, owned) j
  unfolding shows
  present_shows l value j owned on = rw on refl

  fill_level :
      (l : ℕ) (level : l < 4) (e : Entry l) (n boxed : ℕ)
      → start ≤ n
      → n < stop
      → FillsAt l level e n boxed
  fill_level zero level e n boxed from below = fill_page level e n boxed from below
  fill_level (suc l) level (value, owned) n boxed from below =
      let loop = λ (next : Table (suc l)) (nb : ℕ).
        fill_table_lem virt_end start stop l entry (fill l) (shows l) ends (omega arith) (512 ^ l)
          refl (block_positive l) (fill_level l (omega arith)) 512 next n nb from below
          (omega arith) in
      elim (Bool-cases (is_present value)) [
        | inl on ↦
            below_entry l level value value _ n boxed boxed owned owned below
              (kept value (alloc boxed) on) on (present_table value on) (rw on refl) (rw on refl)
              (λ j. present_shows l value j owned on) (loop owned boxed)
        | inr off ↦
            below_entry l level value _ (alloc boxed) n boxed (boxed + 1) owned (zeroed (suc l))
              below (boxed_table value (alloc boxed) off)
              (new_is_present (alloc boxed) (alloc_small boxed) (alloc_aligned boxed))
              (new_table (alloc boxed) (alloc_small boxed) (alloc_aligned boxed)) (rw off refl)
              (rw off refl) (λ j. zeroed-shows l value j owned off)
              (loop (zeroed (suc l)) (boxed + 1))
      ]

  -- Every page of 48 bits, in the range or not.
  pub fill_pml4 :
      (t : Table 4) (j : ℕ)
      → start < stop
      → j < 2 ^ 36
      → (create_mapping alloc (start * 4096) virt_end (p * 4096) attr t >>= λ t'.
          ok (entry_of 3 t' (j * 4096)))
        ≡ ok (if leb start j && ltb j stop then entry j else entry_of 3 t (j * 4096))
  unfolding create_mapping
  fill_pml4 t j some_page small =
      let (t', boxed, run, filled) =
        fill_table_lem virt_end start stop 3 entry (fill 3) (shows 3) ends (omega arith) (512 ^ 3)
          refl (block_positive 3) (fill_level 3 (omega arith)) 512 t start 0 (omega arith) some_page
          (omega arith) in
      rw
        (
          run,
          entry_of-shows 3 t j (omega arith),
          entry_of-shows 3 t' j (omega arith),
          filled j (omega arith),
        )
        refl

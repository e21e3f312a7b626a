-- ===== src/X86/Mapping/Region.antt =====
-- What one loop of `create_mapping` fills: the pages of a table from a page on, up to the end.
use native.Mathlib.Nat.{div-lt_iff_lt-mul, mul-le-mul_right, mul-div_cancel}
use mushix.Prelude.{
  ℕ, zero, suc, ◌+◌, ◌*◌, ◌/◌, ◌%◌, ◌^◌, ◌<◌, ◌≤◌, ◌≡◌, ◌≢◌, ◌↔◌, ◌⊎◌, inl, inr, min, refl, sym, ap,
  ◌∙◌, true, false, ◌&&◌, ◌||◌, leb, ltb, ◌==◌, if◌then◌else◌, ok, arith, dec_lt, ℕ_discrete,
}
use mushix.X86.Index.{digit}
use mushix.X86.{calc_index}
use mushix.X86.Mapping.{Table, Entry, Round, store, fill_table}

-- The index of a page in the table of level `suc l`, whose entries stand for `512 ^ l` pages each.
pub index_page : (l n : ℕ) → l < 4 → calc_index (suc l) (n * 4096) ≡ n / 512 ^ l % 512
index_page zero n h = omega (arith, digit 1 (n * 4096))
index_page (suc zero) n h = omega (arith, digit 2 (n * 4096))
index_page (suc (suc zero)) n h = omega (arith, digit 3 (n * 4096))
index_page (suc (suc (suc zero))) n h = omega (arith, digit 4 (n * 4096))
index_page (suc (suc (suc (suc l)))) n h = absurd (omega arith)

-- Pages by their block of `P`.
pub before_block : (P j c : ℕ) → 0 < P → (j / P < c) ↔ (j < c * P)
before_block P j c h = div-lt_iff_lt-mul h

-- The pages from `n` to `stop` show `entry`, the others what they showed.
abbrev pub Fills : (stop : ℕ) (entry : ℕ → ℕ) (n : ℕ) (before after : ℕ) (j : ℕ) → Type 0
Fills stop entry n before after j = after ≡ (if leb n j && ltb j stop then entry j else before)

module _ (virt_end start stop l : ℕ) (entry : ℕ → ℕ) (body : Entry l → ℕ → ℕ → Round (Entry l))
    (read : Entry l → ℕ → ℕ) (ends : (n : ℕ) → start < n → leb virt_end (n * 4096) ≡ leb stop n)
    (level : l < 4) (P : ℕ) (size : P ≡ 512 ^ l) (positive : 0 < P) where
  -- One entry: the pages of the block of `n`.
  abbrev pub FillsEntry : Entry l → (n boxed : ℕ) → Type 0
  FillsEntry e n boxed =
      (e' : Entry l) × (boxed' : ℕ) × (body e (n * 4096) boxed
        ≡ ok (e', min stop ((n / P + 1) * P) * 4096, boxed'))
      × ((j : ℕ) → j / P ≡ n / P → Fills stop entry n (read e j) (read e' j) j)

  abbrev pub FillsTable : (fuel : ℕ) → Table (suc l) → (n boxed : ℕ) → Type 0
  FillsTable fuel t n boxed =
      (t' : Table (suc l)) × (boxed' : ℕ) × (fill_table virt_end l body fuel t (n * 4096) boxed
        ≡ ok (t', min stop ((n / P / 512 + 1) * 512 * P) * 4096, boxed'))
      × ((j : ℕ)
          → j / P / 512 ≡ n / P / 512
          → Fills stop entry n (read (t (j / P % 512)) j) (read (t' (j / P % 512)) j) j)

  step :
      (fuel : ℕ) (t : Table (suc l)) (n boxed m boxed' : ℕ) (e : Entry l)
      → body (t (n / P % 512)) (n * 4096) boxed ≡ ok (e, m * 4096, boxed')
      → start < m
      → fill_table virt_end l body (suc fuel) t (n * 4096) boxed ≡ (
          if leb 512 (n / P % 512 + 1) || leb stop m
          then ok (store t (n / P % 512) e, m * 4096, boxed')
          else fill_table virt_end l body fuel (store t (n / P % 512) e) (m * 4096) boxed')
  unfolding fill_table
  step fuel t n boxed m boxed' e run later =
      let at : calc_index (suc l) (n * 4096) ≡ n / P % 512 = rw size (index_page l n level) in
      rw (at, run, ends m later) refl

  inside : (n j : ℕ) → j / P ≡ n / P → j < (n / P + 1) * P
  inside n j same = (before_block P j (n / P + 1) positive).0 (omega (arith, same))

  outside : (n j : ℕ) → j / P ≢ n / P → leb ((n / P + 1) * P) j ≡ leb n j
  outside n j other = ground (
    arith,
    before_block P j (n / P) positive,
    before_block P j (n / P + 1) positive,
    before_block P n (n / P) positive,
    before_block P n (n / P + 1) positive,
  )

  stored_same :
      (t : Table (suc l)) (e : Entry l) (n j : ℕ)
      → j / P ≡ n / P
      → read (store t (n / P % 512) e (j / P % 512)) j ≡ read e j
  stored_same t e n j same =
      let met : (j / P % 512 == n / P % 512) ≡ true =
        ground (arith, ap (λ (b : ℕ). b % 512) same) in
      rw met refl

  stored_other :
      (t : Table (suc l)) (e : Entry l) (n j : ℕ)
      → j / P ≢ n / P
      → j / P / 512 ≡ n / P / 512
      → read (store t (n / P % 512) e (j / P % 512)) j ≡ read (t (j / P % 512)) j
  stored_other t e n j other region =
      let apart : (j / P % 512 == n / P % 512) ≡ false = ground arith in rw apart refl

  -- Behind the block of `n` nothing is left to fill.
  last_entry :
      (t : Table (suc l)) (e : Entry l) (n : ℕ)
      → ((j : ℕ) → j / P ≡ n / P → Fills stop entry n (read (t (n / P % 512)) j) (read e j) j)
      → ((j : ℕ) → j / P / 512 ≡ n / P / 512 → (j < (n / P + 1) * P) ⊎ (stop ≤ (n / P + 1) * P))
      → (j : ℕ) → j / P / 512 ≡ n / P / 512
      → Fills stop entry n
          (read (t (j / P % 512)) j)
          (read (store t (n / P % 512) e (j / P % 512)) j)
          j
  last_entry t e n fills covered j region = elim (ℕ_discrete (j / P) (n / P)) [
    | yes same ↦
        stored_same t e n j same
        ∙ fills j same
        ∙ ap (λ b. if leb n j && ltb j stop then entry j else read (t (b % 512)) j) (sym same)
    | no other ↦
        let none_left : (leb n j && ltb j stop) ≡ false =
          ground (arith, outside n j other, covered j region) in
        stored_other t e n j other region ∙ rw none_left refl
  ]

  -- The entries behind the block of `n` are filled by the rest of the loop.
  more_entries :
      (t t' : Table (suc l)) (e : Entry l) (n : ℕ)
      → ((j : ℕ) → j / P ≡ n / P → Fills stop entry n (read (t (n / P % 512)) j) (read e j) j)
      → ((j : ℕ)
          → j / P / 512 ≡ n / P / 512
          → Fills stop entry
              ((n / P + 1) * P)
              (read (store t (n / P % 512) e (j / P % 512)) j)
              (read (t' (j / P % 512)) j)
              j)
      → (j : ℕ) → j / P / 512 ≡ n / P / 512
      → Fills stop entry n (read (t (j / P % 512)) j) (read (t' (j / P % 512)) j) j
  more_entries t t' e n fills rest j region = elim (ℕ_discrete (j / P) (n / P)) [
    | yes same ↦
        let before : leb ((n / P + 1) * P) j ≡ false = ground (arith, inside n j same) in
        rest j region
        ∙ rw before (
            stored_same t e n j same
            ∙ fills j same
            ∙ ap (λ b. if leb n j && ltb j stop then entry j else read (t (b % 512)) j) (sym same))
    | no other ↦ rest j region ∙ rw (outside n j other, stored_other t e n j other region) refl
  ]

  region_end : (n : ℕ) → (n / P + 1) * P ≤ (n / P / 512 + 1) * 512 * P
  region_end n = mul-le-mul_right P (omega arith)

  next_block : (n : ℕ) → (n / P + 1) * P / P ≡ n / P + 1
  next_block n = mul-div_cancel (n / P + 1) positive

  -- The loop ends with the block of `n`: it was the last entry, or the end was reached.
  stops :
      (fuel : ℕ) (t : Table (suc l)) (n boxed boxed' : ℕ) (e : Entry l)
      → start ≤ n
      → n < stop
      → body (t (n / P % 512)) (n * 4096) boxed ≡ ok (e, min stop ((n / P + 1) * P) * 4096, boxed')
      → ((j : ℕ) → j / P ≡ n / P → Fills stop entry n (read (t (n / P % 512)) j) (read e j) j)
      → (511 ≤ n / P % 512) ⊎ (stop ≤ (n / P + 1) * P)
      → FillsTable (suc fuel) t n boxed
  stops fuel t n boxed boxed' e from below run filled (inl at_end) =
      let test : leb 512 (n / P % 512 + 1) ≡ true = ground arith in
      let region : (n / P / 512 + 1) * 512 ≡ n / P + 1 = omega arith in
      (
        store t (n / P % 512) e,
        boxed',
        step fuel t n boxed _ boxed' e run (omega (arith, inside n n refl))
            ∙ rw (test, region) refl,
        last_entry t e n filled
            (λ j same. inl ((before_block P j (n / P + 1) positive).0 (omega (arith, same)))),
      )
  stops fuel t n boxed boxed' e from below run filled (inr reached) =
      let here : min stop ((n / P + 1) * P) ≡ stop = omega arith in
      let there : min stop ((n / P / 512 + 1) * 512 * P) ≡ stop = omega (arith, region_end n) in
      let test : (leb 512 (n / P % 512 + 1) || leb stop stop) ≡ true = ground arith in
      (
        store t (n / P % 512) e,
        boxed',
        step fuel t n boxed stop boxed' e (rw (← here) run) (omega arith) ∙ rw (test, there) refl,
        last_entry t e n filled (λ j same. inr reached),
      )

  goes_on :
      (fuel : ℕ) (t : Table (suc l)) (n boxed boxed' : ℕ) (e : Entry l)
      → start ≤ n
      → body (t (n / P % 512)) (n * 4096) boxed ≡ ok (e, min stop ((n / P + 1) * P) * 4096, boxed')
      → ((j : ℕ) → j / P ≡ n / P → Fills stop entry n (read (t (n / P % 512)) j) (read e j) j)
      → n / P % 512 < 511
      → (n / P + 1) * P < stop
      → FillsTable fuel (store t (n / P % 512) e) ((n / P + 1) * P) boxed'
      → FillsTable (suc fuel) t n boxed
  goes_on fuel t n boxed boxed' e from run filled inner more (t', boxed'', ran, rest) =
      let here : min stop ((n / P + 1) * P) ≡ (n / P + 1) * P = omega arith in
      let region : (n / P + 1) * P / P / 512 ≡ n / P / 512 = omega (arith, next_block n) in
      let test : (leb 512 (n / P % 512 + 1) || leb stop ((n / P + 1) * P)) ≡ false = ground arith in
      (
        t',
        boxed'',
        step fuel t n boxed ((n / P + 1) * P) boxed' e (rw (← here) run)
              (omega (arith, inside n n refl))
            ∙ rw test (ran ∙ rw region refl),
        more_entries t t' e n filled (λ j same. rest j (same ∙ sym region)),
      )

  -- With fuel for the entries that are left, the loop fills the table from the page `n` on.
  pub fill_table_lem :
      ((e : Entry l) (n boxed : ℕ) → start ≤ n → n < stop → FillsEntry e n boxed)
      → (fuel : ℕ) (t : Table (suc l)) (n boxed : ℕ) → start ≤ n
      → n < stop
      → 512 ≤ fuel + n / P % 512
      → FillsTable fuel t n boxed
  fill_table_lem fills zero t n boxed from below room = absurd (omega arith)
  fill_table_lem fills (suc fuel) t n boxed from below room =
      let (e, boxed', run, filled) = fills (t (n / P % 512)) n boxed from below in
      elim (dec_lt (n / P % 512) 511) [
        | no at_end ↦ stops fuel t n boxed boxed' e from below run filled (inl (omega arith))
        | yes inner ↦ elim (dec_lt ((n / P + 1) * P) stop) [
          | no reached ↦ stops fuel t n boxed boxed' e from below run filled (inr (omega arith))
          | yes more ↦ goes_on fuel t n boxed boxed' e from run filled inner more (
              fill_table_lem fills fuel (store t (n / P % 512) e) ((n / P + 1) * P) boxed'
                (omega (arith, inside n n refl)) more (omega (arith, next_block n)))
        ]
      ]

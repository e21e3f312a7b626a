-- ===== src/X86/Page.antt =====
-- What a page table entry says after it was set.
use mushix.Prelude.{
  ℕ, ◌+◌, ◌-◌, ◌*◌, ◌/◌, ◌%◌, ◌^◌, ◌<◌, ◌≡◌, ◌≢◌, arith, refl, ap, sym, subst, ◌∙◌, bit_and, bit_or,
  true, false, ◌==◌, if◌then◌else◌, Result, ok, err, panic, ◌>>=◌, Bool-cases, inl, inr, ℕ_discrete,
}
use mushix.Word.{bit_not}
use mushix.Word.Fields.{bit_and_mask}
use mushix.Word.Split.{
  bit_and-split, bit_or-split, bit_and-zero, bit_and-ones, bit_or-zero, zero-bit_or,
}
use mushix.X86.{
  attr_mask, PageAttr, not_present, read_write_kernel, read_write_io, attr_bits, is_present,
  is_writable, is_user, table, set_page, populate, ensure_populated,
}

-- Adding attribute bits below the page boundary, and taking the entry apart again.
or_low : (q a : ℕ) → a < 4096 → bit_or (q * 4096) a ≡ q * 4096 + a
or_low q a h = ground (arith, bit_or-split 12 q 0 0 a, bit_or-zero q, zero-bit_or a)

and_low : (q a m : ℕ) → a < 4096 → m < 4096 → bit_and (q * 4096 + a) m ≡ bit_and a m
and_low q a m h hm = ground (arith, bit_and-split 12 q a 0 m, bit_and-zero q)

and_high : (q a : ℕ) → q < 2 ^ 52 → a < 4096 → bit_and (q * 4096 + a) (2 ^ 64 - 1 - 4095) ≡ q * 4096
and_high q a hq h =
    ground (arith, bit_and-split 12 q a (2 ^ 52 - 1) 0, bit_and-ones 52 q, bit_and-zero a)

-- The entry for the page at `phys` with the attributes `attr`: it points to the page, and its bits are
-- the attributes.
abbrev pub Points : ℕ → PageAttr → Result ℕ → Type 0
Points phys attr (ok value) =
    (phys % 4096 ≡ 0)
    × (is_present value ≡ is_present (attr_bits attr))
    × (is_writable value ≡ is_writable (attr_bits attr))
    × (is_user value ≡ false)
    × (table value ≡ (if is_present (attr_bits attr) then ok phys else err "Page not found"))
Points phys attr (err e) = phys % 4096 ≢ 0
Points phys attr (panic e) = ◌≡◌ {A = ℕ} 0 1

attr_bits-lt : (attr : PageAttr) → attr_bits attr < 4096
unfolding attr_bits
attr_bits-lt not_present = omega arith
attr_bits-lt read_write_kernel = omega arith
attr_bits-lt read_write_io = omega arith

is_user-attr_bits : (attr : PageAttr) → is_user (attr_bits attr) ≡ false
unfolding attr_bits is_user
is_user-attr_bits not_present = refl
is_user-attr_bits read_write_kernel = refl
is_user-attr_bits read_write_io = refl

is_present_low : (q a : ℕ) → a < 4096 → is_present (q * 4096 + a) ≡ is_present a
unfolding is_present
is_present_low q a h = rw (and_low q a 1 h (omega arith)) refl

is_writable_low : (q a : ℕ) → a < 4096 → is_writable (q * 4096 + a) ≡ is_writable a
unfolding is_writable
is_writable_low q a h = rw (and_low q a 2 h (omega arith)) refl

is_user_low : (q a : ℕ) → a < 4096 → is_user (q * 4096 + a) ≡ is_user a
unfolding is_user
is_user_low q a h = rw (and_low q a 4 h (omega arith)) refl

table_low :
    (q a : ℕ)
    → q < 2 ^ 52
    → a < 4096
    → table (q * 4096 + a) ≡ (if is_present a then ok (q * 4096) else err "Page not found")
unfolding table
table_low q a hq h = rw (is_present_low q a h, and_high q a hq h) refl

points :
    (q a : ℕ) (attr : PageAttr)
    → q < 2 ^ 52
    → attr_bits attr ≡ a
    → Points (q * 4096) attr (ok (bit_or (q * 4096) a))
points q a attr hq e =
    let h : a < 4096 = omega (arith, attr_bits-lt attr, e) in
    rw (e, or_low q a h)
      (
        omega arith,
        is_present_low q a h,
        is_writable_low q a h,
        is_user_low q a h ∙ ap is_user (sym e) ∙ is_user-attr_bits attr,
        table_low q a hq h,
      )

-- `set_page` fails for an address that is no multiple of 4096. Otherwise the entry leads to the address
-- when the attributes say present and is not found when they do not, is present and writable as the
-- attributes say, and never belongs to the user.
pub set_page_lem :
    (phys : ℕ) (attr : PageAttr) → phys < 2 ^ 64 → Points phys attr (set_page phys attr)
unfolding set_page
set_page_lem phys attr small = elim (ℕ_discrete (phys % 4096) 0) [
  | yes aligned ↦
      let whole : phys ≡ phys / 4096 * 4096 = omega (arith, aligned) in
      let masked : bit_and phys 4095 ≡ 0 = bit_and_mask 12 phys ∙ aligned in
      rw masked (
        subst (λ p. Points p attr (ok (bit_or p (attr_bits attr)))) (sym whole)
          (points (phys / 4096) (attr_bits attr) attr (omega arith) refl))
  | no odd ↦
      let masked : (bit_and phys 4095 == 0) ≡ false = ground (arith, bit_and_mask 12 phys, odd) in
      rw masked odd
]

pub new_table :
    (next : ℕ)
    → next < 2 ^ 64
    → next % 4096 ≡ 0
    → table (bit_or next (attr_bits read_write_kernel)) ≡ ok next
unfolding attr_bits is_present
new_table next small aligned =
    let whole : next / 4096 * 4096 ≡ next = omega (arith, aligned) in
    subst (λ p. table (bit_or p (attr_bits read_write_kernel)) ≡ ok p) whole
      (points (next / 4096) (attr_bits read_write_kernel) read_write_kernel (omega arith) refl).4

pub new_is_present :
    (next : ℕ)
    → next < 2 ^ 64
    → next % 4096 ≡ 0
    → is_present (bit_or next (attr_bits read_write_kernel)) ≡ true
unfolding attr_bits is_present
new_is_present next small aligned =
    let whole : next / 4096 * 4096 ≡ next = omega (arith, aligned) in
    subst (λ p. is_present (bit_or p (attr_bits read_write_kernel)) ≡ true) whole
      (points (next / 4096) (attr_bits read_write_kernel) read_write_kernel (omega arith) refl).1

-- The entry that `set_page` makes of a page.
pub set_page-page :
    (q : ℕ) (attr : PageAttr) → set_page (q * 4096) attr ≡ ok (bit_or (q * 4096) (attr_bits attr))
unfolding set_page
set_page-page q attr =
    let aligned : bit_and (q * 4096) 4095 ≡ 0 = omega (arith, bit_and_mask 12 (q * 4096)) in
    rw aligned refl

pub present_table :
    (value : ℕ) → is_present value ≡ true → table value ≡ ok (bit_and value (bit_not 64 attr_mask))
unfolding table
present_table value on = rw on refl

-- With a next table at a multiple of 4096 from the allocator, `ensure_populated` and then `table_mut`
-- always succeed: an entry that is present leads where it led, one that is not leads to the new table.
-- `populate` and then `table_mut` lead to the new table too, and fail for an entry that is present.
pub ensure_populated_lem :
    (value next : ℕ)
    → next < 2 ^ 64
    → next % 4096 ≡ 0
    → ((ensure_populated value next >>= table)
        ≡ ok (if is_present value then bit_and value (bit_not 64 attr_mask) else next))
      × ((populate value next >>= table)
          ≡ (if is_present value then err "page is already populated" else ok next))
unfolding ensure_populated populate
ensure_populated_lem value next small aligned = elim (Bool-cases (is_present value)) [
  | inl on ↦ rw on (present_table value on, refl)
  | inr off ↦ rw off (new_table next small aligned, new_table next small aligned)
]

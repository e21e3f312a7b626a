-- ===== src/Prelude/Results.antt =====
-- `core::result::Result<T, &'static str>` of src/result.rs, with the code's panics beside it.
use Prim.Native.String.{String}
use mathlib.Core.Path.{◌≡◌, refl}
use mathlib.Core.Bool.{Bool, true, false}
use mathlib.Core.Option.{Option, none, some}

-- `panic` stands for an `assert!`, `unwrap`, `expect`, index or arithmetic check that fails.
pub data Result {ℓ} (A : Type ℓ) : Type ℓ where
  ok : A → Result A
  err : String → Result A
  panic : String → Result A

infixl 5 ◌>>=◌ ◌>>◌
abbrev pub ◌>>=◌ {ℓ κ} : {A : Type ℓ} {B : Type κ} → Result A → (A → Result B) → Result B
ok a >>= f = f a
err e >>= f = err e
panic e >>= f = panic e

abbrev pub ◌>>◌ {ℓ} : {B : Type ℓ} → Result (Unit {0}) → Result B → Result B
m >> k = m >>= λ _. k

-- `assert!(b)`, `o.ok_or(e)` and `o.expect(e)`.
abbrev pub assert : Bool → String → Result (Unit {0})
assert true e = ok tt
assert false e = panic e

abbrev pub ok_or {ℓ} : {A : Type ℓ} → Option A → String → Result A
ok_or none e = err e
ok_or (some a) e = ok a

abbrev pub expect {ℓ} : {A : Type ℓ} → Option A → String → Result A
expect none e = panic e
expect (some a) e = ok a

-- `r.ok()`: a panic is no value, and the callers below meet none.
abbrev pub to_option {ℓ} : {A : Type ℓ} → Result A → Option A
to_option (ok a) = some a
to_option (err e) = none
to_option (panic e) = none

-- `r.unwrap()`
abbrev pub unwrap {ℓ} : {A : Type ℓ} → Result A → Result A
unwrap (ok a) = ok a
unwrap (err e) = panic e
unwrap (panic e) = panic e

abbrev pub and_then {ℓ κ} : {A : Type ℓ} {B : Type κ} → Option A → (A → Option B) → Option B
and_then none f = none
and_then (some a) f = f a

-- `r.expect(m)`
abbrev pub expect_ok {ℓ} : {A : Type ℓ} → Result A → String → Result A
expect_ok (ok a) m = ok a
expect_ok (err e) m = panic m
expect_ok (panic e) m = panic e

-- What a value that was read out of a successful result says of the result.
pub >>=-eq-ok {ℓ κ} :
    {A : Type ℓ} {B : Type κ} (r : Result A) (g : A → B) {b : B}
    → (r >>= λ a. ok (g a)) ≡ ok b
    → (a : A) × (r ≡ ok a) × (g a ≡ b)
>>=-eq-ok (ok a) g h = (a, refl, cc)
>>=-eq-ok (err e) g h = cc
>>=-eq-ok (panic e) g h = cc

pub >>=-split {ℓ κ} :
    {A : Type ℓ} {B : Type κ} (r : Result A) (f : A → Result B) {b : B}
    → (r >>= f) ≡ ok b
    → (a : A) × (r ≡ ok a) × (f a ≡ ok b)
>>=-split (ok a) f h = (a, refl, h)
>>=-split (err e) f h = cc
>>=-split (panic e) f h = cc

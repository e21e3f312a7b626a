-- ===== src/Mbr/Cylinder.antt =====
-- What the partition table's cylinders and the strings found are.
use mushix.Prelude.{
  ℕ, ◌+◌, ◌*◌, ◌/◌, ◌%◌, ◌≤◌, ◌≡◌, ◌⊎◌, inl, inr, ◌∙◌, ap, sym, subst, refl, arith, bit_and, true,
  List, [], ◌∷◌, ◌++◌, length, length-append, drop, take, All, All-append, leb, Bool-cases, leb→le,
}
use mathlib.Core.List.{append_assoc}
use mushix.Word.{shl}
use mushix.Word.Split.{bit_and-split, zero-bit_or, bit_and-zero}
use mushix.Mbr.{cylinder, find_from, find_ascii_strings, is_text, report, start_at}

-- The two high bits are lost: shifted inside a byte they leave nothing, and the cylinder is the
-- low byte alone.
pub cylinder_lem : (high low : ℕ) → cylinder high low ≡ low
unfolding cylinder
cylinder_lem high low = rw gone (zero-bit_or low)
  where
    high_bits : bit_and high 0xc0 ≡ bit_and (high / 64) 3 * 64
    high_bits =
        ground (arith, bit_and-split 6 (high / 64) (high % 64) 3 0, bit_and-zero (high % 64))

    gone : shl 8 (bit_and high 0xc0) 2 ≡ 0
    gone = rw high_bits (omega arith)

-- A string that is printed for an offset: four or more text bytes, which stand there.
abbrev pub IsFound : List ℕ → (ℕ × List ℕ) → Type 0
IsFound buf (start, s) =
    (4 ≤ length s) × All (λ b. is_text b ≡ true) s × (take (length s) (drop start buf) ≡ s)

drop-append : (xs ys : List ℕ) → drop (length xs) (xs ++ ys) ≡ ys
drop-append [] ys = refl
drop-append (x ∷ xs) ys = drop-append xs ys

take-append : (xs ys : List ℕ) → take (length xs) (xs ++ ys) ≡ xs
take-append [] ys = refl
take-append (x ∷ xs) ys = ap (λ zs. x ∷ zs) (take-append xs ys)

-- Where the current string starts: there is none yet, or it starts behind `before`.
abbrev Starts : List ℕ → ℕ → List ℕ → Type 0
Starts before start cur = (length cur ≡ 0) ⊎ (start ≡ length before)

abbrev Texts : List ℕ → Type 0
Texts s = All (λ b. is_text b ≡ true) s

-- Reporting the current string adds one that is found.
report-IsFound :
    (buf before cur rest : List ℕ) (start : ℕ) (found : List (ℕ × List ℕ))
    → buf ≡ before ++ (cur ++ rest)
    → Texts cur
    → Starts before start cur
    → All (IsFound buf) found
    → All (IsFound buf) (report start cur found)
report-IsFound buf before cur rest start found e t s v = elim (Bool-cases (leb 4 (length cur))) [
  | inl long ↦ rw long ((leb→le 4 (length cur) long, t, there (at (leb→le 4 (length cur) long))), v)
  | inr short ↦ rw short v
]
  where
    at : 4 ≤ length cur → start ≡ length before
    at h = elim s [ inl z ↦ absurd (omega (arith, h, z)) | inr eq ↦ eq ]

    there : start ≡ length before → take (length cur) (drop start buf) ≡ cur
    there eq = rw (eq, e, drop-append before (cur ++ rest)) (take-append cur rest)

find_from-IsFound :
    (buf before cur bs : List ℕ) (start : ℕ)
    → buf ≡ before ++ (cur ++ bs)
    → Texts cur
    → Starts before start cur
    → All (IsFound buf) (find_from (length before + length cur) bs start cur)
unfolding find_from
find_from-IsFound buf before cur [] start e t s = report-IsFound buf before cur [] start [] e t s tt
find_from-IsFound buf before cur (b ∷ bs) start e t s =
    let longer =
      find_from-IsFound buf before (cur ++ (b ∷ [])) bs
        (start_at (length before + length cur) start cur)
        (e ∙ ap (λ r. before ++ r) (sym (append_assoc cur (b ∷ []) bs))) in
    let later =
      find_from-IsFound buf (before ++ (cur ++ (b ∷ []))) [] bs start
        (e
          ∙ ap (λ r. before ++ r) (sym (append_assoc cur (b ∷ []) bs))
          ∙ sym (append_assoc before (cur ++ (b ∷ [])) bs))
        tt (inl refl) in
    let next : length before + length (cur ++ (b ∷ [])) ≡ length before + length cur + 1 =
      omega (arith, length-append cur (b ∷ [])) in
    let behind : length (before ++ (cur ++ (b ∷ []))) + 0 ≡ length before + length cur + 1 =
      omega (arith, length-append before (cur ++ (b ∷ [])), next) in
    elim (Bool-cases (is_text b)) [
      | inl text ↦ rw text (
          subst
            (λ i.
              All (IsFound buf) (
                find_from i bs (start_at (length before + length cur) start cur) (cur ++ (b ∷ []))))
            next
            (longer (All-append (λ c. is_text c ≡ true) cur (b ∷ []) t (text, tt))
              (inr (started s))))
      | inr other ↦ rw other (
          report-IsFound buf before cur (b ∷ bs) start
            (find_from (length before + length cur + 1) bs start []) e t s
            (subst (λ i. All (IsFound buf) (find_from i bs start [])) behind later))
    ]
  where
    started :
        Starts before start cur → start_at (length before + length cur) start cur ≡ length before
    started (inl z) = ground (arith, z)
    started (inr eq) = ground (arith, eq)

-- Every string that is printed has at least four bytes, all of them text, and stands in the
-- sector at the offset printed with it.
pub find_ascii_strings-IsFound : (buf : List ℕ) → All (IsFound buf) (find_ascii_strings buf)
unfolding find_ascii_strings
find_ascii_strings-IsFound buf = find_from-IsFound buf [] [] buf 0 refl tt (inl refl)

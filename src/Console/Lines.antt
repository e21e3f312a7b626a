-- ===== src/Console/Lines.antt =====
-- The hex dump of src/print.rs line by line.
use mathlib.Core.List.{map, append_assoc, append-nil}
use mushix.Prelude.{
  ℕ, ◌+◌, ◌-◌, ◌*◌, ◌^◌, ◌<◌, ◌≡◌, refl, sym, subst, arith, true, false, List, [], ◌∷◌, ◌++◌,
  length, replicate, All, ◌==◌, if◌then◌else◌,
}
use mushix.Console.{Dump, start, last_char, address, feed_all, finish, hexdump_bytes}
use mushix.Console.Line.{
  hex_bytes, full_line, At, At-cast, feed_all-append, feed_all-At, feed_all-full,
}

-- The last line, of fewer bytes.
abbrev pub last_line : ℕ → List ℕ → List ℕ
last_line offset bytes =
    if length bytes == 0
    then []
    else address offset
      ++ hex_bytes bytes
      ++ replicate (3 * (16 - length bytes)) b' '
      ++ (b'|' ∷ [])
      ++ map last_char bytes
      ++ (b'|' ∷ 10 ∷ [])

abbrev pub full_lines : ℕ → List (List ℕ) → List ℕ
full_lines offset [] = []
full_lines offset (line ∷ lines) = full_line offset line ++ full_lines (offset + 16) lines

abbrev pub concat : List (List ℕ) → List ℕ
concat [] = []
concat (line ∷ lines) = line ++ concat lines

feed_all-lines :
    (d : Dump) (offset : ℕ) (out : List ℕ) (lines : List (List ℕ))
    → At d offset out []
    → All (λ line. length line ≡ 16) lines
    → At
        (feed_all d (concat lines))
        (offset + 16 * length lines)
        (out ++ full_lines offset lines)
        []
unfolding feed_all
feed_all-lines d offset out [] a h =
    rw (append-nil out) (subst (λ (n : ℕ). At d n out []) (omega arith) a)
feed_all-lines d offset out ([] ∷ lines) a h = absurd (omega (arith, h.0))
feed_all-lines d offset out ((v ∷ vs) ∷ lines) a h =
    let line = full_line offset (v ∷ vs) in
    let step = feed_all-full d offset out [] v vs a (omega (arith, h.0)) in
    At-cast (sym (feed_all-append d (v ∷ vs) (concat lines))) (omega arith)
      (append_assoc out line (full_lines (offset + 16) lines))
      (feed_all-lines (feed_all d (v ∷ vs)) (offset + 16) (out ++ line) lines step h.1)

finish-At :
    (d : Dump) (offset : ℕ) (out done : List ℕ)
    → At d offset out done
    → length done < 16
    → finish d ≡ out ++ last_line offset done
unfolding finish
finish-At d offset out [] a h =
    let at_start : (d.i == 0) ≡ true = ground (arith, a.index) in rw at_start a.text
finish-At d offset out (v ∷ vs) a h =
    let some_bytes : (length (v ∷ vs) == 0) ≡ false = ground arith in
    simp (some_bytes, a.text, a.index, a.kept, append_assoc) refl

-- The dump of bytes whose offsets fit an `i32`, cut into lines of sixteen and a shorter rest, is those lines, each with its
-- offset, its bytes in hexadecimal and its characters, and a last line for the rest unless it is
-- empty, padded to the width of the others. The last line alone keeps the character 0x7f, and it has
-- no space before its bar.
pub hexdump_bytes_lem :
    (lines : List (List ℕ)) (rest : List ℕ)
    → All (λ line. length line ≡ 16) lines
    → length rest < 16
    → 16 * length lines + 16 < 2 ^ 31
    → hexdump_bytes (concat lines ++ rest)
      ≡ full_lines 0 lines ++ last_line (16 * length lines) rest
unfolding hexdump_bytes
hexdump_bytes_lem lines rest h hr small =
    let a : At start 0 [] [] = record {
      index = refl;
      line_at = refl;
      text = refl;
      kept = refl;
      size = refl;
    } in
    let whole : At (feed_all start (concat lines)) (16 * length lines) (full_lines 0 lines) [] =
      At-cast refl (omega arith) refl (feed_all-lines start 0 [] lines a h) in
    rw (feed_all-append start (concat lines) rest) (
      finish-At (feed_all (feed_all start (concat lines)) rest) (16 * length lines)
        (full_lines 0 lines) rest (feed_all-At _ _ _ [] rest whole (omega (arith, hr))) hr)

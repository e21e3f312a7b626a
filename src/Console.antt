-- ===== src/Console.antt =====
-- `hexdump_bytes` of src/print.rs: what it prints, as the bytes of the text.
pub mod Line
pub mod Lines
mod Examples
use mathlib.Core.List.{map}
use mushix.Prelude.{
  ℕ, zero, suc, ◌+◌, ◌-◌, ◌*◌, ◌/◌, ◌%◌, List, [], ◌∷◌, ◌++◌, take, set, replicate, ltb, leb, ◌==◌,
  ◌&&◌, if◌then◌else◌,
}

abbrev pub hex_digit : ℕ → ℕ
hex_digit d = if ltb d 10 then b'0' + d else b'A' + (d - 10)

-- `{:0nX}`, for a number of at most `n` digits.
abbrev pub hex : (n : ℕ) → ℕ → List ℕ
hex zero v = []
hex (suc n) v = hex n (v / 16) ++ (hex_digit (v % 16) ∷ [])

-- The variables of the loop over the bytes, and what was printed. The offset is an `i32`, which
-- overflows for 2 ^ 31 bytes.
pub record Dump : Type 0 where
  pub i : ℕ
  pub ascii : List ℕ
  pub offset : ℕ
  pub out : List ℕ

abbrev pub start : Dump
start = record { i = 0; ascii = replicate 16 0; offset = 0; out = [] }

-- The characters at the end of a full line, and those at the end of the last one, which keeps 0x7f.
abbrev pub full_char : ℕ → ℕ
full_char c = if leb 0x20 c && leb c 0x7e then c else b'.'

abbrev pub last_char : ℕ → ℕ
last_char c = if leb 0x20 c && leb c 0x7f then c else b'.'

pub address : ℕ → List ℕ
address offset = hex 8 offset ++ (b':' ∷ b' ' ∷ b' ' ∷ [])

pub spaced : ℕ → List ℕ
spaced v = hex 2 v ++ (b' ' ∷ [])

-- The body of the loop.
pub feed : Dump → ℕ → Dump
feed d v =
    let out = d.out ++ (if d.i == 0 then address d.offset else []) ++ spaced v in
    let ascii = set d.ascii d.i v in
    if d.i + 1 == 16
    then record {
      i = 0;
      ascii = ascii;
      offset = d.offset + 16;
      out = out ++ (b' ' ∷ b'|' ∷ b' ' ∷ []) ++ map full_char ascii ++ (b'|' ∷ 10 ∷ []);
    }
    else record { i = d.i + 1; ascii = ascii; offset = d.offset; out = out }

pub feed_all : Dump → List ℕ → Dump
feed_all d [] = d
feed_all d (v ∷ vs) = feed_all (feed d v) vs

-- What follows the loop.
finish : Dump → List ℕ
finish d =
    if d.i == 0
    then d.out
    else d.out
      ++ replicate (3 * (16 - d.i)) b' '
      ++ (b'|' ∷ [])
      ++ map last_char (take d.i d.ascii)
      ++ (b'|' ∷ 10 ∷ [])

pub hexdump_bytes : List ℕ → List ℕ
hexdump_bytes bytes = finish (feed_all start bytes)

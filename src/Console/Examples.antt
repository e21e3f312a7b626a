-- ===== src/Console/Examples.antt =====
-- The dump of eighteen bytes.
use mushix.Prelude.{ℕ, ◌*◌, ◌≡◌, refl, arith, List, [], ◌∷◌, ◌++◌, length, replicate}
use mushix.Console.{hexdump_bytes}
use mushix.Console.Lines.{concat, full_lines, last_line, hexdump_bytes_lem}

abbrev lines : List (List ℕ)
lines = replicate 16 0x41 ∷ []

abbrev rest : List ℕ
rest = 0x7f ∷ 0x0a ∷ []

hexdump_bytes_lem_example :
    hexdump_bytes (concat lines ++ rest) ≡ full_lines 0 lines ++ last_line (16 * length lines) rest
hexdump_bytes_lem_example = hexdump_bytes_lem lines rest (refl, tt) (omega arith) (omega arith)

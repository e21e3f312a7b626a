-- ===== src/Mbr/Examples.antt =====
-- A cylinder above 255, and the strings of a short buffer.
use mushix.Prelude.{ℕ, ◌≡◌, refl, List, [], ◌∷◌}
use mushix.Mbr.{find_ascii_strings, find_from}

abbrev bytes : List ℕ
bytes = 0 ∷ 0x46 ∷ 0x41 ∷ 0x54 ∷ 0x31 ∷ 0x36 ∷ 0 ∷ 0x41 ∷ []

found : find_ascii_strings bytes ≡ (1, 0x46 ∷ 0x41 ∷ 0x54 ∷ 0x31 ∷ 0x36 ∷ []) ∷ []
unfolding find_ascii_strings find_from
found = refl

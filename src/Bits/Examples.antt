-- ===== src/Bits/Examples.antt =====
-- A concrete bit field.
use mushix.Prelude.{ℕ, ◌≡◌, ◌^◌, ◌-◌, refl, arith, min, ltb, if◌then◌else◌}
use mushix.Word.Fields.{field}
use mushix.Bits.{extract_bits}
use mushix.Bits.Laws.{extract_bits-eq-field}

extract_bits-eq-field_example :
    extract_bits 32 0x12345678 8 12 ≡ (if ltb 8 64 then field 8 (min 63 12) 0x12345678 else 0)
extract_bits-eq-field_example = extract_bits-eq-field 32 0x12345678 8 12 (omega arith) (omega arith)

-- Bit 63 of a full-width field is lost.
full_width : ◌≡◌ {A = ℕ} (extract_bits 64 (2 ^ 64 - 1) 0 64) (2 ^ 63 - 1)
unfolding extract_bits
full_width = refl

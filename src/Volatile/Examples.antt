-- ===== src/Volatile/Examples.antt =====
-- A concrete register.
use mushix.Prelude.{ℕ, ◌≡◌, ◌⊎◌, ◌+◌, ◌^◌, ◌<◌, ◌≤◌, arith, ok, err}
use mushix.Volatile.{write_bits, read_bits}
use mushix.Volatile.Laws.{write_bits-read_bits}

-- The type field of a block's control word.
write_bits-read_bits_example :
    ((23 < 2 ^ 6)
      × (new : ℕ) × (write_bits 32 10 6 23 0xffff ≡ ok new)
      × (new < 2 ^ 32)
      × (read_bits 32 10 6 new ≡ 23)
      × ((s' k' : ℕ)
          → s' < 32
          → k' < 32
          → (s' + k' ≤ 10) ⊎ (10 + 6 ≤ s')
          → read_bits 32 s' k' new ≡ read_bits 32 s' k' 0xffff))
    ⊎ ((2 ^ 6 ≤ 23) × (write_bits 32 10 6 23 0xffff ≡ err "Value out of range"))
write_bits-read_bits_example =
    write_bits-read_bits 32 10 6 23 0xffff (omega arith) (omega arith) (omega arith) (omega arith)

-- ===== src/Hpet/Examples.antt =====
-- A timer of 10 MHz with three comparators.
use mushix.Prelude.{◌*◌, ◌+◌, ◌/◌, ◌%◌, ◌^◌, ◌≡◌, refl, arith, [], ◌∷◌, All, take, drop, ok, some}
use mushix.Word.{shr}
use mushix.Hpet.{Hpet, HpetRegisters, new, global_timestamp}
use mushix.Hpet.Start.{IsQuiet, new-IsQuiet}

abbrev registers : HpetRegisters
registers = record {
  capabilities_and_id = 100000000 * 2 ^ 32 + 2 * 2 ^ 8;
  configuration = 0;
  main_counter_value = 77;
  timers = 0xffff ∷ 0x3e0e ∷ 4 ∷ 0xe ∷ [];
}

new-IsQuiet_example :
    (h : Hpet) × (new registers ≡ ok h)
    × (h.freq ≡ 1000000000000000 / shr 64 registers.capabilities_and_id 32)
    × (h.registers.main_counter_value ≡ 0)
    × (h.registers.configuration % 2 ≡ 1)
    × (h.num_of_timers ≡ registers.capabilities_and_id / 2 ^ 8 % 2 ^ 5 + 1)
    × All IsQuiet (take (registers.capabilities_and_id / 2 ^ 8 % 2 ^ 5 + 1) h.registers.timers)
    × (drop (registers.capabilities_and_id / 2 ^ 8 % 2 ^ 5 + 1) h.registers.timers
        ≡ drop (registers.capabilities_and_id / 2 ^ 8 % 2 ^ 5 + 1) registers.timers)
new-IsQuiet_example =
    new-IsQuiet registers (omega arith, (omega arith, (omega arith, (omega arith, tt))))
      (omega arith)

-- Half a second.
timestamp :
    global_timestamp (
      some (record {
        registers = record registers { main_counter_value = 5000000 };
        num_of_timers = 3;
        freq = 10000000;
      }))
    ≡ ok 500000000
unfolding global_timestamp
timestamp = refl

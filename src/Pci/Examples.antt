-- ===== src/Pci/Examples.antt =====
-- A device with a prefetchable region of 64 KiB at 0xfe000000.
use mushix.Prelude.{ℕ, ◌+◌, ◌-◌, ◌*◌, ◌/◌, ◌%◌, ◌^◌, ◌≡◌, refl, arith, ◌==◌, if◌then◌else◌, ok}
use mushix.Pci.{Config, try_bar0_mem64}
use mushix.Pci.Bar.{IsBar64, after_write, try_bar0_mem64_lem}

-- The state is the register, and a word that was written but not yet latched.
record Device : Type 0 where
  low_word : ℕ
  reg : ℕ

abbrev config : Config Device
config = record {
  load = λ bytes s offset.
      if offset == 0x10 then s.reg % 2 ^ 32 else if offset == 0x14 then s.reg / 2 ^ 32 else 0;
  store = λ s offset value.
      if offset == 0x10
      then record s { low_word = value }
      else record s { reg = (value * 2 ^ 32 + s.low_word) / 2 ^ 16 * 2 ^ 16 + 12 };
}

abbrev device : Device
device = record { low_word = 0; reg = 0xfe000000 + 12 }

device-IsBar64 : IsBar64 config (λ s. s.reg) 16 12
device-IsBar64 = record {
  low = λ s. refl;
  high = λ s. refl;
  written = λ s value h. omega arith;
  at_least_16 = omega arith;
  at_most = omega arith;
  memory_64 = refl;
  four_bits = omega arith;
}

-- The address is 8 too high, and the size 8 too small.
try_bar0_mem64_lem_example :
    (try_bar0_mem64 config device
      ≡ ok (
        (0xfe00 * 2 ^ 16 + 12 / 8 * 8, 2 ^ 16 - 12 / 8 * 8),
        after_write config (after_write config device (2 ^ 64 - 1)) device.reg,
      ))
    × ((after_write config (after_write config device (2 ^ 64 - 1)) device.reg).reg ≡ device.reg)
try_bar0_mem64_lem_example =
    try_bar0_mem64_lem config (λ s. s.reg) 16 12 0xfe00 device-IsBar64 device refl (omega arith)

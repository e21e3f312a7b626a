-- ===== src/Xhci/Regs/Examples.antt =====
-- Concrete registers of a controller with four ports and 32 slots.
use mushix.Bits.{extract_bits}
use mushix.Prelude.{true, false, ℕ, zero, suc, ◌≡◌, ◌%◌, ◌==◌, if◌then◌else◌, refl, ok}
use mushix.Xhci.Regs.{
  CapabilityRegisters, OperationalRegisters, supports, assert_bit, is_enabled, bit, max_packet_size,
  port_speed,
}

abbrev caps : CapabilityRegisters
caps = record {
  caplength = 0x20;
  hcsparams1 = 0x04000020;
  hcsparams2 = 0;
  dboff = 0x800;
  rtsoff = 0x600;
}

abbrev op : OperationalRegisters
op = record { usbcmd = 5; usbsts = 0; pagesize = 1; crcr = 0; dcbaap = 0; config = 0 }

-- The status of a controller that is stopped and reset: running at the first read, halted from the
-- second on, and bit 1 clear from the fifth on. It goes on running while it is told to run.
abbrev stopped : ℕ → ℕ
stopped zero = 2
stopped (suc zero) = 3
stopped (suc (suc zero)) = 3
stopped (suc (suc (suc zero))) = 3
stopped (suc (suc (suc (suc n)))) = 1

abbrev status : ℕ → ℕ → ℕ
status usbcmd n = if usbcmd % 2 == 0 then stopped n else 2

-- The four controllers that the driver supports, and one that it does not.
supported :
    (supports 0x1b36 0x000d ≡ true)
    × (supports 0x8086 0x9d2f ≡ true)
    × (supports 0x1b36 0x31a8 ≡ false)
unfolding supports
supported = (refl, refl, refl)

-- Asserting the reset bit keeps power and clears no change bit.
reset_bit : ◌≡◌ {A = ℕ} (assert_bit 0xe0203 4) 0x211
unfolding assert_bit
reset_bit = refl

enabled_port : is_enabled 0x203 ≡ true
unfolding is_enabled bit
enabled_port = refl

high_speed_port : max_packet_size 0xe03 ≡ ok 64
unfolding max_packet_size port_speed extract_bits
high_speed_port = refl

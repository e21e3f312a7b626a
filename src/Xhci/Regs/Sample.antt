-- ===== src/Xhci/Regs/Sample.antt =====
-- A port that is powered, connected and enabled, with a high-speed device.
use mushix.Prelude.{ℕ, ◌≡◌, refl, true, ok}
use mushix.Bits.{extract_bits}
use mushix.Xhci.Regs.{bit, is_enabled, port_speed, max_packet_size}

abbrev pub high_speed_port : ℕ
high_speed_port = 0xe03

pub high_speed_port-is_enabled : is_enabled high_speed_port ≡ true
unfolding is_enabled bit
high_speed_port-is_enabled = refl

pub high_speed_port-max_packet_size : max_packet_size high_speed_port ≡ ok 64
unfolding max_packet_size port_speed extract_bits
high_speed_port-max_packet_size = refl

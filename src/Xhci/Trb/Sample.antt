-- ===== src/Xhci/Trb/Sample.antt =====
-- Events with completion code 1.
use mushix.Prelude.{◌+◌, ◌*◌, ◌^◌, ◌≡◌, refl, ok}
use mushix.Volatile
use mushix.Xhci.Trb.{Trb, trb_type, completion_code, transfer_result_ok, cmd_result_ok}

abbrev pub transfer_success : Trb
transfer_success = record { data_ = 0; option = 0x1000000; control = 0x8001 }

pub transfer_success-ok : transfer_result_ok transfer_success ≡ ok tt
unfolding transfer_result_ok trb_type completion_code Volatile.read_bits
transfer_success-ok = refl

abbrev pub command_success : Trb
command_success = record { data_ = 0; option = 0x1000000; control = 33 * 2 ^ 10 + 2 ^ 24 }

pub command_success-ok : cmd_result_ok command_success ≡ ok tt
unfolding cmd_result_ok trb_type completion_code Volatile.read_bits
command_success-ok = refl

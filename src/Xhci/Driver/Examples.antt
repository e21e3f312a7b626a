-- ===== src/Xhci/Driver/Examples.antt =====
-- A high-speed device on port 1.
use mushix.Prelude.{◌+◌, ◌*◌, ◌^◌, ◌<◌, ◌≡◌, ◌⊎◌, refl, arith, [], replicate, some, panic}
use mushix.Xhci.Trb.{enable_slot_command, address_device_command, cmd_result_ok}
use mushix.Xhci.Trb.Laws.{command_trb}
use mushix.Xhci.Command.Ahead.{slot_ahead}
use mushix.Xhci.Command.Sequence.{started, started-IsCommandRing}
use mushix.Xhci.Regs.Sample.{
  high_speed_port, high_speed_port-is_enabled, high_speed_port-max_packet_size,
}
use mushix.Xhci.Driver.{Controller, Host, Allocated, bring_up}
use mushix.Xhci.Driver.Commands.{Commanded}
use mushix.Xhci.Driver.Port.{IsReady, given, skipped, prepared, bring_up_lem}

-- Every command succeeds for slot 1.
abbrev host : Host
host = record {
  doorbells = 2;
  completion = λ c ptr. record { data_ = ptr; option = 0x1000000; control = 33 * 2 ^ 10 + 2 ^ 24 };
}

abbrev controller : Controller
controller = record {
  commands = record { ring = started 0x1000; sent = [] };
  contexts = replicate 255 0;
  inputs = [];
}

abbrev at : Allocated
at = record { output_context = 0x8000; input_context = 0x9000; ring = 0x2000 }

at-IsReady : IsReady at 1 high_speed_port 64 controller
at-IsReady = record {
  port_low = omega arith;
  port_high = omega arith;
  speed = high_speed_port-max_packet_size;
  ring_at = omega arith;
  table = refl;
}

bring_up_lem_example :
    (c1 : Controller) × Commanded controller c1 (command_trb enable_slot_command 0 0)
    × ((given host controller c1 ≡ 0)
          × (bring_up host at 1 (some high_speed_port) controller
              ≡ (panic "attempt to subtract with overflow", c1))
        ⊎ (0 < given host controller c1)
          × (c2 : Controller) × (bring_up host at 1 (some high_speed_port) controller ≡ (
            skipped
                (cmd_result_ok (host.completion c2 (slot_ahead c1.commands.ring 0)))
                (given host controller c1, started at.ring),
            c2,
          ))
          × Commanded
              (prepared at 1 high_speed_port 64 (given host controller c1) c1)
              c2
              (command_trb address_device_command at.input_context (given host controller c1)))
bring_up_lem_example =
    bring_up_lem host (omega arith) at 1 high_speed_port 64 high_speed_port-is_enabled controller
      at-IsReady (started-IsCommandRing 0x1000)

-- ===== src/Xhci/Driver/Commands.antt =====
-- One command of src/xhci.rs: what `send_command` pushes and returns.
use mushix.Prelude.{ℕ, ◌^◌, ◌<◌, ◌≡◌, ◌≢◌, refl, arith, [], ◌∷◌, ◌++◌, lt→ltb, ok}
use mushix.Xhci.Trb.{
  Trb, TrbType, number, enable_slot_command, address_device_command, configure_endpoint_command,
}
use mushix.Xhci.Trb.Laws.{command_trb, trb_type-eq}
use mushix.Xhci.Command.Push.{IsCommandRing, IsCommand}
use mushix.Xhci.Command.Ahead.{Ahead, slot_ahead}
use mushix.Xhci.Control.Push.{block_ahead, Reached-start, push_trb_lem}
use mushix.Xhci.Driver.{Controller, Host, push_command, notify_xhc, send_command}

-- The controller behind one more command, which is all that changes.
pub record Commanded (c c' : Controller) (cmd : Trb) : Type 0 where
  pub ahead : Ahead c.commands.ring c'.commands.ring 1
  pub sent : c'.commands.sent ≡ c.commands.sent ++ (block_ahead c.commands.ring 0 cmd ∷ [])
  pub contexts : c'.contexts ≡ c.contexts
  pub inputs : c'.inputs ≡ c.inputs

pub send_command_lem :
    (host : Host) (c : Controller) (cmd : Trb)
    → IsCommandRing c.commands.ring
    → IsCommand cmd
    → 0 < host.doorbells
    → (c' : Controller) × (send_command host cmd c
        ≡ (ok (host.completion c' (slot_ahead c.commands.ring 0)), c'))
      × Commanded c c' cmd
unfolding send_command push_command notify_xhc
send_command_lem host c cmd v s bell =
    let (e', runs, reached) = push_trb_lem c.commands c.commands [] 0 cmd (Reached-start _ v) s in
    (
      record c { commands = e' },
      rw (runs, lt→ltb 0 host.doorbells bell) refl,
      record { ahead = reached.ahead; sent = reached.sent; contexts = refl; inputs = refl },
    )

-- A command block is a command for the ring, whatever its type but that of a link.
command_trb-IsCommand :
    (t : TrbType) (input_context slot : ℕ)
    → slot < 2 ^ 8
    → number t < 64
    → number t ≢ 6
    → IsCommand (command_trb t input_context slot)
command_trb-IsCommand t input_context slot h lt ne = record {
  word = omega (arith, lt);
  plain = λ e. ne (omega (arith, trb_type-eq (command_trb t input_context slot), e, lt));
}

pub enable_slot-IsCommand : IsCommand (command_trb enable_slot_command 0 0)
enable_slot-IsCommand =
    command_trb-IsCommand enable_slot_command 0 0 (omega arith) (omega arith) (omega arith)

module _ (input_context slot : ℕ) (h : slot < 2 ^ 8) where
  pub address_device-IsCommand : IsCommand (command_trb address_device_command input_context slot)
  address_device-IsCommand =
      command_trb-IsCommand address_device_command input_context slot h (omega arith) (omega arith)

  pub configure_endpoint-IsCommand :
      IsCommand (command_trb configure_endpoint_command input_context slot)
  configure_endpoint-IsCommand =
      command_trb-IsCommand configure_endpoint_command input_context slot h (omega arith)
        (omega arith)

-- ===== src/Xhci/Driver/Port.antt =====
-- A connected port of src/xhci.rs: its slot and its address.
use mushix.Prelude.{
  ℕ, ◌-◌, ◌^◌, ◌<◌, ◌≡◌, refl, ap, ◌∙◌, arith, [], ◌∷◌, ◌++◌, true, length, set, Bool-cases, ◌⊎◌,
  inl, inr, ℕ_discrete, Option, none, some, Result, ok, err, panic, ◌>>=◌, if◌then◌else◌,
}
use mushix.Xhci.Trb.{slot_id, enable_slot_command, address_device_command, cmd_result_ok}
use mushix.Xhci.Trb.Laws.{command_trb, cmd_enable_slot_lem, cmd_address_device_lem, slot_id-lt}
use mushix.Xhci.Command.{CommandRing}
use mushix.Xhci.Command.Push.{IsCommandRing}
use mushix.Xhci.Command.Ahead.{slot_ahead}
use mushix.Xhci.Command.Sequence.{started, default-eq}
use mushix.Xhci.Context.Laws.{addressed, address_device_steps}
use mushix.Xhci.Regs.{is_enabled, max_packet_size, port_speed, set_output_context}
use mushix.Xhci.Regs.Laws.{max_packet_size-known, set_output_context_lem}
use mushix.Xhci.Control.{lift}
use mushix.Xhci.Control.Push.{then_in-lift}
use mushix.Xhci.Identify.{on_ok}
use mushix.Xhci.Driver.{
  Controller, Host, Allocated, init_port, send_command, address_device, bring_up,
}
use mushix.Xhci.Driver.Commands.{
  Commanded, send_command_lem, enable_slot-IsCommand, address_device-IsCommand,
}

-- What `init_port` does for each value of the register, with the controller behind its command.
abbrev pub slot_given : Host → Controller → Controller → Option ℕ → Result ℕ × Controller
slot_given host c c' none = (err "Port not found", c)
slot_given host c c' (some value) =
    if is_enabled value
    then (ok (slot_id (host.completion c' (slot_ahead c.commands.ring 0))), c')
    else (err "Port is not enabled", c)

init_port_lem :
    (host : Host) (c : Controller) (portsc : Option ℕ)
    → IsCommandRing c.commands.ring
    → 0 < host.doorbells
    → (c' : Controller) × (init_port host portsc c ≡ slot_given host c c' portsc)
      × Commanded c c' (command_trb enable_slot_command 0 0)
unfolding init_port
init_port_lem host c portsc v bell =
    let (c', runs, commanded) =
      send_command_lem host c (command_trb enable_slot_command 0 0) v enable_slot-IsCommand bell in
    (c', each portsc c' runs, commanded)
  where
    each :
        (portsc : Option ℕ) (c' : Controller)
        → send_command host (command_trb enable_slot_command 0 0) c
          ≡ (ok (host.completion c' (slot_ahead c.commands.ring 0)), c')
        → init_port host portsc c ≡ slot_given host c c' portsc
    each none c' runs = refl
    each (some value) c' runs = elim (Bool-cases (is_enabled value)) [
      | inl on ↦ rw (on, cmd_enable_slot_lem, runs) refl
      | inr off ↦ rw off refl
    ]

-- What `address_device` asks of its arguments: a port with a known speed, a slot that is not 0, and a
-- ring at an address of 64 bits.
pub record IsReady (at : Allocated) (port value size : ℕ) (c : Controller) : Type 0 where
  pub port_low : 0 < port
  pub port_high : port < 256
  pub speed : max_packet_size value ≡ ok size
  pub ring_at : at.ring < 2 ^ 64
  pub table : length c.contexts ≡ 255

-- The controller when the command of `address_device` is sent.
abbrev pub prepared : Allocated → (port value size slot : ℕ) → Controller → Controller
prepared at port value size slot c = record c {
  contexts = set c.contexts (slot - 1) at.output_context;
  inputs = c.inputs ++ ((at.input_context, addressed port (port_speed value) size at.ring) ∷ []);
}

module _ (host : Host) (bell : 0 < host.doorbells) (at : Allocated) (port value size : ℕ) where
  address_device_lem :
      (c : Controller) (slot : ℕ)
      → IsReady at port value size c
      → IsCommandRing c.commands.ring
      → slot < 256
      → 0 < slot
      → (c' : Controller) × (address_device host at port (some value) slot c ≡ (
        cmd_result_ok (host.completion c' (slot_ahead c.commands.ring 0)) >>= λ _.
            ok (started at.ring),
        c',
      ))
        × Commanded
            (prepared at port value size slot c)
            c'
            (command_trb address_device_command at.input_context slot)
  unfolding address_device
  address_device_lem c slot r v hs hs' =
      let (psi_small, size_small) = max_packet_size-known value r.speed in
      let (ctx1, ctx2, first, second, third) =
        address_device_steps port (port_speed value) size at.ring r.port_low r.port_high psi_small
          size_small r.ring_at in
      let (c', runs, commanded) =
        send_command_lem host (prepared at port value size slot c)
          (command_trb address_device_command at.input_context slot) v
          (address_device-IsCommand at.input_context slot hs) bell in
      let placed : set_output_context c.contexts slot at.output_context
          ≡ ok (set c.contexts (slot - 1) at.output_context) =
        rw (set_output_context_lem c.contexts slot at.output_context r.table hs) (ground arith) in
      (
        c',
        rw
            (
              placed,
              first,
              second,
              default-eq at.ring,
              r.speed,
              third,
              cmd_address_device_lem at.input_context slot hs,
              runs,
            )
            (then_in-lift (cmd_result_ok (host.completion c' (slot_ahead c.commands.ring 0))) c'
              (λ (u : Unit {0}). started at.ring)),
        commanded,
      )

-- The result of the second step: an error skips the port.
abbrev pub skipped {ℓ} : {A : Type ℓ} → Result (Unit {0}) → A → Result (Option A)
skipped (ok u) a = ok (some a)
skipped (err m) a = ok none
skipped (panic m) a = panic m

skip :
    {S A B : Type 0} (r : Result (Unit {0})) (a : A) (b : B) (c : S)
    → on_ok {B = B × A} ((r >>= λ _. ok a), c) (λ x. lift (ok (some (b, x))))
      ≡ (skipped r (b, a), c)
skip (ok u) a b c = refl
skip (err m) a b c = refl
skip (panic m) a b c = refl

-- The second step for a slot that the first gave.
abbrev second_step :
    Host
    → Allocated
    → (port : ℕ) → Option ℕ
    → Controller
    → (slot : ℕ) → Result (Option (ℕ × CommandRing)) × Controller
second_step host at port portsc c slot =
    on_ok (address_device host at port portsc slot c) λ ring. lift (ok (some (slot, ring)))

bring_up-from :
    (host : Host) (at : Allocated) (port : ℕ) (portsc : Option ℕ) (c c1 : Controller) (slot : ℕ)
    → init_port host portsc c ≡ (ok slot, c1)
    → bring_up host at port portsc c ≡ second_step host at port portsc c1 slot
unfolding bring_up
bring_up-from host at port portsc c c1 slot runs = rw runs refl

second_step-panic :
    (host : Host) (at : Allocated) (port : ℕ) (portsc : Option ℕ) (c : Controller)
    → length c.contexts ≡ 255
    → second_step host at port portsc c 0 ≡ (panic "attempt to subtract with overflow", c)
unfolding address_device
second_step-panic host at port portsc c table =
    rw (set_output_context_lem c.contexts 0 at.output_context table (omega arith)) refl

-- The slot in the completion event of the command that led from `c` to `c1`.
abbrev pub given : Host → Controller → Controller → ℕ
given host c c1 = slot_id (host.completion c1 (slot_ahead c.commands.ring 0))

module _ (host : Host) (bell : 0 < host.doorbells) (at : Allocated) (port value size : ℕ)
    (on : is_enabled value ≡ true) (c : Controller) (r : IsReady at port value size c)
    (v : IsCommandRing c.commands.ring) where
  -- For an enabled port from 1 to 255 with a known speed, the driver sends Enable Slot and takes
  -- the slot of the answer, whatever its completion code. When that is 0 the driver panics. Else it
  -- stores the output context in the slot's place, and sends Address Device for the slot with an
  -- input context that holds the port, its speed and the fresh ring of endpoint 0; the port is
  -- brought up with that ring exactly when the answer is a success, and is skipped otherwise. The
  -- command ring is one command further each time and stays well formed.
  pub bring_up_lem :
      (c1 : Controller) × Commanded c c1 (command_trb enable_slot_command 0 0)
      × ((given host c c1 ≡ 0)
            × (bring_up host at port (some value) c
                ≡ (panic "attempt to subtract with overflow", c1))
          ⊎ (0 < given host c c1)
            × (c2 : Controller) × (bring_up host at port (some value) c ≡ (
              skipped
                  (cmd_result_ok (host.completion c2 (slot_ahead c1.commands.ring 0)))
                  (given host c c1, started at.ring),
              c2,
            ))
            × Commanded
                (prepared at port value size (given host c c1) c1)
                c2
                (command_trb address_device_command at.input_context (given host c c1)))
  bring_up_lem =
      let (c1, runs, sent) = init_port_lem host c (some value) v bell in
      let r1 : IsReady at port value size c1 = record {
        port_low = r.port_low;
        port_high = r.port_high;
        speed = r.speed;
        ring_at = r.ring_at;
        table = ap length sent.contexts ∙ r.table;
      } in
      let gives : bring_up host at port (some value) c
          ≡ second_step host at port (some value) c1 (given host c c1) =
        bring_up-from host at port (some value) c c1 (given host c c1) (runs ∙ rw on refl) in
      let lt : given host c c1 < 256 =
        slot_id-lt (host.completion c1 (slot_ahead c.commands.ring 0)) in
      (
        c1,
        sent,
        elim (ℕ_discrete (given host c c1) 0) [
          | yes zero_slot ↦ inl (
            zero_slot,
            gives
                ∙ ap (second_step host at port (some value) c1) zero_slot
                ∙ second_step-panic host at port (some value) c1 r1.table,
          )
          | no ne ↦
              let low : 0 < given host c c1 = omega (arith, ne) in
              let (c2, second, commanded) =
                address_device_lem host bell at port value size c1 (given host c c1) r1
                  sent.ahead.good lt low in
              inr (
                low,
                c2,
                gives ∙ rw second (skip _ (started at.ring) (given host c c1) c2),
                commanded,
              )
        ],
      )

-- ===== src/Xhci/Command/Examples.antt =====
-- Concrete command rings: the theorems at work, and the code run.
use mushix.Prelude.{
  ℕ, ◌+◌, ◌/◌, ◌%◌, ◌<◌, ◌≤◌, ◌≢◌, false, get_or, ◌≡◌, refl, arith, List, replicate, All-replicate,
  ok,
}
use mushix.Volatile
use mushix.Xhci.Trb
use mushix.Xhci.Trb.{Trb, zero_trb, cmd_enable_slot, trb_type}
use mushix.Xhci.Ring.Laws.{block}
use mushix.Xhci.Command.{CommandRing, push_all}
use mushix.Xhci.Command.Push.{IsCommandRing, IsCommand, handed_over, round_state}
use mushix.Xhci.Command.Sequence.{started, started-IsCommandRing, slots, push_all_lem}

abbrev enable_slot : Trb
enable_slot = record { data_ = 0; option = 0; control = 0x2400 }

enable_slot-eq : cmd_enable_slot ≡ ok enable_slot
unfolding cmd_enable_slot Trb.set_trb_type Volatile.write_bits
enable_slot-eq = refl

enable_slot-IsCommand : IsCommand enable_slot
unfolding trb_type Volatile.read_bits
enable_slot-IsCommand = record { word = omega arith; plain = omega arith }

abbrev sixteen : List Trb
sixteen = replicate 16 enable_slot

push_all_lem_example :
    (c' : CommandRing) × (push_all (started 0x1000) sixteen ≡ ok (slots 0x1000 0 16, c'))
    × IsCommandRing c'
    × ((k : ℕ)
        → k < 16
        → 16 ≤ k + 15
        → block c'.ring ((0 + k) % 15)
          ≡ handed_over (round_state false ((0 + k) / 15)) (get_or sixteen k zero_trb))
    × ((j : ℕ)
        → j < 15
        → ((k : ℕ) → k < 16 → (0 + k) % 15 ≢ j)
        → block c'.ring j ≡ block (started 0x1000).ring j)
push_all_lem_example =
    push_all_lem (started 0x1000) sixteen (started-IsCommandRing 0x1000)
      (All-replicate IsCommand 16 enable_slot enable_slot-IsCommand)

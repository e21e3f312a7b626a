-- ===== src/Xhci/Command.antt =====
-- `CommandRing` of src/xhci.rs: a ring that the driver fills and the controller drains.
pub mod Push
pub mod Full
pub mod Sequence
pub mod Ahead
mod Examples
use mushix.Prelude.{
  ℕ, ◌+◌, ◌-◌, ◌*◌, Bool, true, false, not, List, [], ◌∷◌, ◌==◌, if◌then◌else◌, Result, ok, err,
  panic, ◌>>=◌, ◌>>◌, unwrap, set,
}
use mushix.Xhci.Trb.{Trb, zero_trb, number, link, cycle_state, set_cycle_state, trb_type, trb_link}
use mushix.Xhci.Ring
use mushix.Xhci.Ring.{TrbRing}

pub record CommandRing : Type 0 where
  pub ring : TrbRing
  pub cycle_state_ours : Bool

-- `CommandRing::default()`: a link back to the start in the last block.
pub default : ℕ → Result CommandRing
default base = do
  t ← trb_link (Ring.phys_addr (Ring.new base))
  r ← unwrap (Ring.write (Ring.new base) (Ring.num_trb - 1) t)
  ok (record { ring = r; cycle_state_ours = false })

-- `ring_phys_addr + (dst_ptr - ring_base_virt)`; the two bases are the same address.
abbrev dst_phys_addr : TrbRing → ℕ
dst_phys_addr r = Ring.phys_addr r + (Ring.current_ptr r - r.base)

-- `push` behind the two writes: hand the block over, and step over the link block.
abbrev skip_link : TrbRing → Bool → Result CommandRing
skip_link r ours = do
  r ← Ring.advance_index r (not ours)
  ok (record { ring = r; cycle_state_ours = not ours })

abbrev hand_over : TrbRing → Bool → Result CommandRing
hand_over r ours = do
  r ← Ring.advance_index r (not ours)
  t ← Ring.current r
  if trb_type t == number link
      then skip_link r ours
      else ok (record { ring = r; cycle_state_ours = ours })

abbrev write_at : TrbRing → Bool → Trb → Result CommandRing
write_at r ours src = do
  let cleared = record r { trbs = set r.trbs r.current_index zero_trb }
  src ← set_cycle_state src ours
  r ← Ring.write_current cleared src
  hand_over r ours

-- The address of the block that was written, and the ring.
pub push : CommandRing → Trb → Result (ℕ × CommandRing)
push c src = do
  t ← Ring.current c.ring
  if not (Ring.same (cycle_state t) c.cycle_state_ours)
      then err "Command Ring is Full"
      else do c' ← write_at c.ring c.cycle_state_ours src; ok (dst_phys_addr c.ring, c')

-- A sequence of pushes, with the addresses that they return.
pub push_all : CommandRing → List Trb → Result (List ℕ × CommandRing)
push_all c [] = ok ([], c)
push_all c (t ∷ ts) =
    push c t >>= λ (ptr, c'). push_all c' ts >>= λ (ptrs, c''). ok (ptr ∷ ptrs, c'')

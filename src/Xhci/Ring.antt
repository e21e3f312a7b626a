-- ===== src/Xhci/Ring.antt =====
-- `TrbRing` of src/xhci.rs: sixteen blocks in one page, and the index of the current one.
pub mod Laws
use mushix.Prelude.{
  ℕ, ◌+◌, ◌*◌, ◌%◌, Bool, not, List, [], ◌∷◌, Option, get_elem?, set, replicate, length, ltb, ◌==◌,
  if◌then◌else◌, Result, ok, err, panic, ◌>>=◌, ◌>>◌, expect, unwrap, true, false,
}
use mushix.Xhci.Trb.{Trb, zero_trb, cycle_state, set_cycle_state}

abbrev pub num_trb : ℕ
num_trb = 16

-- `base` is the address of the page that holds the ring.
pub record TrbRing : Type 0 where
  pub base : ℕ
  pub trbs : List Trb
  pub current_index : ℕ

-- `TrbRing::new()`: a zeroed page at the address that the allocator gives.
abbrev pub new : ℕ → TrbRing
new base = record { base = base; trbs = replicate num_trb zero_trb; current_index = 0 }

pub write : TrbRing → ℕ → Trb → Result TrbRing
write r index trb =
    if ltb index (length r.trbs)
    then ok (record r { trbs = set r.trbs index trb })
    else err "TrbRing out of range"

-- `&self.trb[0]`, and the address of the current block.
abbrev pub phys_addr : TrbRing → ℕ
phys_addr r = r.base

abbrev pub current_ptr : TrbRing → ℕ
current_ptr r = r.base + 16 * r.current_index

-- `self.trb[index]`, which panics out of range.
pub trb : TrbRing → ℕ → Result Trb
trb r index = expect (get_elem? r.trbs index) "index out of bounds"

pub current : TrbRing → Result Trb
current r = trb r r.current_index

abbrev pub same : Bool → Bool → Bool
same true b = b
same false b = not b

abbrev pub next_index : TrbRing → ℕ
next_index r = (r.current_index + 1) % length r.trbs

-- The consumer's step: the block must be ours.
pub advance_index_notoggle : TrbRing → Bool → Result TrbRing
advance_index_notoggle r cycle_ours = do
  t ← current r
  if not (same (cycle_state t) cycle_ours)
      then err "cycle state mismatch"
      else ok (record r { current_index = next_index r })

-- The producer's step: the block is handed over by its cycle bit.
pub advance_index : TrbRing → Bool → Result TrbRing
advance_index r new_cycle = do
  t ← current r
  if same (cycle_state t) new_cycle then err "cycle state mismatch" else do
    t' ← set_cycle_state t new_cycle
    ok (record r { trbs = set r.trbs r.current_index t'; current_index = next_index r })

-- `write_current`: the write at the current index is expected to succeed.
pub write_current : TrbRing → Trb → Result TrbRing
write_current r t = unwrap (write r r.current_index t)

-- ===== src/Xhci/Ring/Laws.antt =====
-- What the steps of `TrbRing` do when their checks pass.
use mushix.Prelude.{
  ℕ, ◌<◌, ◌≡◌, refl, Bool, true, false, not, get_or, set, length, get_elem?-eq-get_or, ok, lt→ltb,
}
use mushix.Xhci.Trb.{Trb, zero_trb, cycle_state}
use mushix.Xhci.Trb.Laws.{IsTrb, with_cycle, set_cycle_state_lem}
use mushix.Xhci.Ring
use mushix.Xhci.Ring.{TrbRing, next_index, same}

abbrev pub block : TrbRing → ℕ → Trb
block r j = get_or r.trbs j zero_trb

pub same_refl : (b : Bool) → same b b ≡ true
same_refl true = refl
same_refl false = refl

pub same-not : (b : Bool) → same b (not b) ≡ false
same-not true = refl
same-not false = refl

pub current_lem :
    (r : TrbRing) → r.current_index < length r.trbs → Ring.current r ≡ ok (block r r.current_index)
unfolding Ring.current Ring.trb
current_lem r h = rw (get_elem?-eq-get_or r.trbs r.current_index zero_trb h) refl

pub write_lem :
    (r : TrbRing) (index : ℕ) (t : Trb)
    → index < length r.trbs
    → Ring.write r index t ≡ ok (record r { trbs = set r.trbs index t })
unfolding Ring.write
write_lem r index t h = rw (lt→ltb index (length r.trbs) h) refl

pub write_current_lem :
    (r : TrbRing) (t : Trb)
    → r.current_index < length r.trbs
    → Ring.write_current r t ≡ ok (record r { trbs = set r.trbs r.current_index t })
unfolding Ring.write_current Ring.write
write_current_lem r t h = rw (lt→ltb r.current_index (length r.trbs) h) refl

-- The producer's step hands the current block over.
pub advance_index_lem :
    (r : TrbRing) (c : Bool)
    → r.current_index < length r.trbs
    → IsTrb (block r r.current_index)
    → cycle_state (block r r.current_index) ≡ c
    → Ring.advance_index r (not c)
      ≡ ok (record r {
        trbs = set r.trbs r.current_index (with_cycle (not c) (block r r.current_index));
        current_index = next_index r;
      })
unfolding Ring.advance_index
advance_index_lem r c h w e =
    rw (current_lem r h, e, same-not c, set_cycle_state_lem (block r r.current_index) (not c) w)
      refl

-- The consumer's step leaves the blocks alone.
pub advance_index_notoggle_lem :
    (r : TrbRing) (c : Bool)
    → r.current_index < length r.trbs
    → cycle_state (block r r.current_index) ≡ c
    → Ring.advance_index_notoggle r c ≡ ok (record r { current_index = next_index r })
unfolding Ring.advance_index_notoggle
advance_index_notoggle_lem r c h e = rw (current_lem r h, e, same_refl c) refl

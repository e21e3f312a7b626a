-- ===== src/Xhci/Event/Fresh.antt =====
-- The event ring that `EventRing::new` builds holds no event.
use mushix.Prelude.{
  ℕ, ◌+◌, ◌%◌, ◌<◌, ◌≤◌, ◌≡◌, ◌≢◌, ◌⊎◌, inl, inr, sym, refl, arith, true, false, not, [], set,
  get_or-set_ne, replicate, get_or-replicate, none, ok,
}
use mushix.Xhci.Trb.{zero_trb, cycle_state}
use mushix.Xhci.Trb.Laws.{trb_link_lem, link_trb, trb_type-link_trb, zero_trb_lem}
use mushix.Xhci.Ring
use mushix.Xhci.Ring.Laws.{block, write_lem}
use mushix.Xhci.Event.{EventRing, new, set_erdp}
use mushix.Xhci.Event.Queue.{Holds, cycle_ahead}

abbrev pub fresh : ℕ → EventRing
fresh base = record {
  ring = record {
    base = base;
    trbs = set (replicate 16 zero_trb) 15 (link_trb base);
    current_index = 0;
  };
  erst = record { ring_segment_base_address = base; ring_segment_size = 16 };
  cycle_state_ours = true;
  erdp = none;
  wait_list = [];
}

pub new-eq : (base : ℕ) → new base ≡ ok (fresh base)
unfolding new
new-eq base =
    rw (trb_link_lem base, write_lem (Ring.new base) 15 (link_trb base) (omega arith)) refl

cycle-fresh : (base j : ℕ) → cycle_state (block (fresh base).ring j) ≡ false
cycle-fresh base j = elim (by_index j) [
  | inl e ↦ rw (sym e) (trb_type-link_trb base).1
  | inr ne ↦
      rw
        (
          get_or-set_ne (replicate 16 zero_trb) 15 j (link_trb base) zero_trb ne,
          get_or-replicate 16 j zero_trb,
        )
        zero_trb_lem.1
]
  where
    by_index : (j : ℕ) → (15 ≡ j) ⊎ (15 ≢ j)
    by_index j = omega arith

pub fresh-Holds : (base value : ℕ) → Holds (set_erdp (fresh base) value) []
unfolding set_erdp
fresh-Holds base value = record {
  blocks = refl;
  index = omega arith;
  fits = omega arith;
  posted = λ k h. absurd (omega (arith, h));
  vacant = vacant;
}
  where
    vacant :
        (k : ℕ)
        → 0 ≤ k
        → k < 16
        → cycle_state (block (fresh base).ring ((0 + k) % 16)) ≡ not (cycle_ahead 0 true k)
    vacant k le h = rw (cycle-fresh base ((0 + k) % 16)) (ground (arith, h))

-- `EventRing::new` succeeds, and the new ring, once its ERDP register is set, is well formed and
-- holds no event.
pub new-Holds : (base value : ℕ) → (e : EventRing) × (new base ≡ ok e) × Holds (set_erdp e value) []
new-Holds base value = (fresh base, new-eq base, fresh-Holds base value)

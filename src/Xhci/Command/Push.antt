-- ===== src/Xhci/Command/Push.antt =====
-- `CommandRing::push`: its invariant, and that it always accepts the next command.
use mushix.Prelude.{
  ℕ, zero, suc, ◌+◌, ◌*◌, ◌%◌, ◌<◌, ◌≤◌, ◌≡◌, ◌≢◌, ◌∙◌, ap, refl, arith, Bool, true, false, not,
  set, length, length-set, set-set, get_or-set_self, get_or-set_ne, ◌==◌, ok,
}
use mushix.Xhci.Trb.{Trb, zero_trb, cycle_state, trb_type}
use mushix.Xhci.Trb.Laws.{
  IsTrb, with_cycle, set_cycle_state_lem, with_cycle-IsTrb, cycle_state-with_cycle,
  trb_type-with_cycle,
}
use mushix.Xhci.Ring
use mushix.Xhci.Ring.{TrbRing, same}
use mushix.Xhci.Ring.Laws.{block, same_refl, current_lem, write_current_lem, advance_index_lem}
use mushix.Xhci.Command.{CommandRing, push}

-- The blocks below the index are handed over, the others and the link block are the driver's.
pub record IsCommandRing (c : CommandRing) : Type 0 where
  pub blocks : length c.ring.trbs ≡ 16
  pub index : c.ring.current_index < 15
  pub sent :
      (j : ℕ) → j < c.ring.current_index → cycle_state (block c.ring j) ≡ not c.cycle_state_ours
  pub ours :
      (j : ℕ)
      → c.ring.current_index ≤ j
      → j < 16
      → cycle_state (block c.ring j) ≡ c.cycle_state_ours
  pub last : trb_type (block c.ring 15) ≡ 6
  pub plain : (j : ℕ) → j < 15 → trb_type (block c.ring j) ≢ 6
  pub words : (j : ℕ) → IsTrb (block c.ring j)

-- A command as the driver builds it.
pub record IsCommand (t : Trb) : Type 0 where
  pub word : IsTrb t
  pub plain : trb_type t ≢ 6

-- The block that ends up in the ring: its cycle bit set to the driver's, then to the other.
abbrev pub handed_over : Bool → Trb → Trb
handed_over o t = with_cycle (not o) (with_cycle o t)

-- The cycle bit of the driver's blocks, `n` rounds later.
abbrev pub round_state : Bool → ℕ → Bool
round_state o zero = o
round_state o (suc n) = not (round_state o n)

pub round_state-add : (o : Bool) (a b : ℕ) → round_state (round_state o a) b ≡ round_state o (b + a)
round_state-add o a zero = ap (round_state o) {x = a} {y = 0 + a} (omega arith)
round_state-add o a (suc b) =
    ap not (round_state-add o a b)
    ∙ ap (round_state o) {x = suc (b + a)} {y = suc b + a} (omega arith)

pub handed_over-IsTrb : (o : Bool) (t : Trb) → IsTrb t → IsTrb (handed_over o t)
handed_over-IsTrb o t w = with_cycle-IsTrb (with_cycle o t) (not o) (with_cycle-IsTrb t o w)

pub handed_over-trb_type : (o : Bool) (t : Trb) → trb_type (handed_over o t) ≡ trb_type t
handed_over-trb_type o t = trb_type-with_cycle (with_cycle o t) (not o) ∙ trb_type-with_cycle t o

-- The ring behind the first `advance_index`, and behind the one over the link block.
abbrev pub filled : TrbRing → Bool → Trb → TrbRing
filled r o t = record r {
  trbs = set r.trbs r.current_index (handed_over o t);
  current_index = r.current_index + 1;
}

abbrev pub wrapped : TrbRing → Bool → TrbRing
wrapped r o = record r { trbs = set r.trbs 15 (with_cycle (not o) (block r 15)); current_index = 0 }

module _ (c : CommandRing) (t : Trb) (v : IsCommandRing c) (s : IsCommand t) where
  abbrev r : TrbRing
  r = c.ring

  abbrev o : Bool
  o = c.cycle_state_ours

  -- The ring with the command written at the index.
  abbrev written : TrbRing
  written = record r { trbs = set r.trbs r.current_index (with_cycle o t) }

  in_range : r.current_index < length r.trbs
  in_range = omega (arith, v.blocks, v.index)

  block-written : block written r.current_index ≡ with_cycle o t
  block-written = get_or-set_self r.trbs r.current_index (with_cycle o t) zero_trb in_range

  -- The blocks of the filled ring.
  pub filled-at : block (filled r o t) r.current_index ≡ handed_over o t
  filled-at = get_or-set_self r.trbs r.current_index (handed_over o t) zero_trb in_range

  pub filled-other : (j : ℕ) → r.current_index ≢ j → block (filled r o t) j ≡ block r j
  filled-other j d = get_or-set_ne r.trbs r.current_index j (handed_over o t) zero_trb d

  to_written :
      Ring.write_current (record r { trbs = set r.trbs r.current_index zero_trb }) (with_cycle o t)
      ≡ ok written
  to_written =
      write_current_lem (record r { trbs = set r.trbs r.current_index zero_trb }) (with_cycle o t)
        (rw (length-set r.trbs r.current_index zero_trb) in_range)
      ∙ ap (λ ts. ok (record r { trbs = ts }))
          (set-set r.trbs r.current_index zero_trb (with_cycle o t))

  to_filled : Ring.advance_index written (not o) ≡ ok (filled r o t)
  to_filled =
      advance_index_lem written o (rw (length-set r.trbs r.current_index (with_cycle o t)) in_range)
        (rw block-written (with_cycle-IsTrb t o s.word))
        (rw block-written (cycle_state-with_cycle t o))
      ∙ ap ok same_ring
    where
      same_ring :
          record written {
            trbs =
                set written.trbs r.current_index
                  (with_cycle (not o) (block written r.current_index));
            current_index = (r.current_index + 1) % length written.trbs;
          }
          ≡ filled r o t
      same_ring =
          rw
            (
              block-written,
              set-set r.trbs r.current_index (with_cycle o t) (handed_over o t),
              length-set r.trbs r.current_index (with_cycle o t),
              v.blocks,
            )
            (ap (λ n. record (filled r o t) { current_index = n }) (omega (arith, v.index)))

  next : Ring.current (filled r o t) ≡ ok (block (filled r o t) (r.current_index + 1))
  next =
      current_lem (filled r o t) (
        rw (length-set r.trbs r.current_index (handed_over o t)) (omega (arith, v.blocks, v.index)))

  next-block : block (filled r o t) (r.current_index + 1) ≡ block r (r.current_index + 1)
  next-block = filled-other (r.current_index + 1) (omega arith)

  -- Before the last slot the ring is only filled.
  pub push-plain :
      r.current_index + 1 < 15
      → push c t
        ≡ ok (r.base + 16 * r.current_index, record { ring = filled r o t; cycle_state_ours = o })
  unfolding push
  push-plain h =
      rw
        (
          current_lem r in_range,
          v.ours r.current_index (omega arith) (omega (arith, v.index)),
          same_refl o,
          set_cycle_state_lem t o s.word,
          to_written,
          to_filled,
          next,
          next-block,
          no_link,
        )
        (ap (λ a. ok (a, record { ring = filled r o t; cycle_state_ours = o })) (omega arith))
    where
      no_link : (trb_type (block r (r.current_index + 1)) == 6) ≡ false
      no_link = ground (arith, v.plain (r.current_index + 1) h)

  link-ours : r.current_index ≡ 14 → cycle_state (block (filled r o t) (r.current_index + 1)) ≡ o
  link-ours e = rw next-block (v.ours (r.current_index + 1) (omega arith) (omega arith))

  to_wrapped :
      r.current_index ≡ 14
      → Ring.advance_index (filled r o t) (not o) ≡ ok (wrapped (filled r o t) o)
  to_wrapped e =
      advance_index_lem (filled r o t) o
        (rw (length-set r.trbs r.current_index (handed_over o t)) (omega (arith, v.blocks)))
        (rw next-block (v.words (r.current_index + 1))) (link-ours e)
      ∙ ap ok same_ring
    where
      same_ring :
          record (filled r o t) {
            trbs =
                set
                  (filled r o t).trbs
                  (r.current_index + 1)
                  (with_cycle (not o) (block (filled r o t) (r.current_index + 1)));
            current_index = (r.current_index + 1 + 1) % length (filled r o t).trbs;
          }
          ≡ wrapped (filled r o t) o
      same_ring = rw (length-set r.trbs r.current_index (handed_over o t), v.blocks, e) refl

  -- In the last slot the link block is handed over too, and the cycle toggles.
  pub push-link :
      r.current_index ≡ 14
      → push c t
        ≡ ok (
          r.base + 16 * r.current_index,
          record { ring = wrapped (filled r o t) o; cycle_state_ours = not o },
        )
  unfolding push
  push-link e =
      rw
        (
          current_lem r in_range,
          v.ours r.current_index (omega arith) (omega (arith, v.index)),
          same_refl o,
          set_cycle_state_lem t o s.word,
          to_written,
          to_filled,
          next,
          next-block,
          is_link,
          to_wrapped e,
        )
        (ap (λ a. ok (a, record { ring = wrapped (filled r o t) o; cycle_state_ours = not o }))
          (omega arith))
    where
      is_link : (trb_type (block r (r.current_index + 1)) == 6) ≡ true
      is_link = ground (arith, v.last, e)

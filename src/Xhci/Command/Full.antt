-- ===== src/Xhci/Command/Full.antt =====
-- The command ring is never full: every command is accepted, whatever was consumed.
use mushix.Prelude.{
  ℕ, ◌+◌, ◌*◌, ◌/◌, ◌%◌, ◌<◌, ◌≡◌, ◌≢◌, ◌⊎◌, inl, inr, ◌∙◌, ap, sym, refl, arith, Bool, not, length,
  length-set, get_or-set_self, get_or-set_ne, ok, ℕ_discrete,
}
use mushix.Xhci.Trb.{Trb, zero_trb, cycle_state, trb_type}
use mushix.Xhci.Trb.Laws.{
  IsTrb, with_cycle, with_cycle-IsTrb, cycle_state-with_cycle, trb_type-with_cycle,
}
use mushix.Xhci.Ring.{TrbRing}
use mushix.Xhci.Ring.Laws.{block}
use mushix.Xhci.Command.{CommandRing, push}
use mushix.Xhci.Command.Push.{
  IsCommandRing, IsCommand, round_state, handed_over, handed_over-IsTrb, handed_over-trb_type,
  filled, wrapped, push-plain, push-link, filled-at, filled-other,
}

-- A push of a command into slot `index`, and the ring that it leaves.
pub record Pushed (c : CommandRing) (t : Trb) : Type 0 where
  pub result : CommandRing
  pub runs : push c t ≡ ok (c.ring.base + 16 * c.ring.current_index, result)
  pub good : IsCommandRing result
  pub base : result.ring.base ≡ c.ring.base
  pub index : result.ring.current_index ≡ (c.ring.current_index + 1) % 15
  pub cycle :
      result.cycle_state_ours ≡ round_state c.cycle_state_ours ((c.ring.current_index + 1) / 15)
  pub stored : block result.ring c.ring.current_index ≡ handed_over c.cycle_state_ours t
  pub kept : (j : ℕ) → j < 15 → c.ring.current_index ≢ j → block result.ring j ≡ block c.ring j

pub by_index : (i j : ℕ) → (i ≡ j) ⊎ (i ≢ j)
by_index i j = elim (ℕ_discrete i j) [ yes e ↦ inl e | no ne ↦ inr ne ]

module _ (c : CommandRing) (t : Trb) (v : IsCommandRing c) (s : IsCommand t) where
  abbrev r : TrbRing
  r = c.ring

  abbrev o : Bool
  o = c.cycle_state_ours

  filled-sent : (j : ℕ) → j < r.current_index + 1 → cycle_state (block (filled r o t) j) ≡ not o
  filled-sent j h = elim (by_index r.current_index j) [
    | inl e ↦ rw (sym e, filled-at c t v s) (cycle_state-with_cycle (with_cycle o t) (not o))
    | inr ne ↦ rw (filled-other c t v s j ne) (v.sent j (omega arith))
  ]

  filled-plain : (j : ℕ) → j < 15 → trb_type (block (filled r o t) j) ≢ 6
  filled-plain j h = elim (by_index r.current_index j) [
    | inl e ↦ rw (sym e, filled-at c t v s, handed_over-trb_type o t) s.plain
    | inr ne ↦ rw (filled-other c t v s j ne) (v.plain j h)
  ]

  filled-words : (j : ℕ) → IsTrb (block (filled r o t) j)
  filled-words j = elim (by_index r.current_index j) [
    | inl e ↦ rw (sym e, filled-at c t v s) (handed_over-IsTrb o t s.word)
    | inr ne ↦ rw (filled-other c t v s j ne) (v.words j)
  ]

  filled-length : length (filled r o t).trbs ≡ 16
  filled-length = length-set r.trbs r.current_index (handed_over o t) ∙ v.blocks

  plain-good :
      r.current_index + 1 < 15
      → IsCommandRing (record { ring = filled r o t; cycle_state_ours = o })
  plain-good h = record {
    blocks = filled-length;
    index = h;
    sent = filled-sent;
    ours = λ j le lt.
        rw (filled-other c t v s j (λ e. omega (arith, e, le))) (v.ours j (omega arith) lt);
    last = rw (filled-other c t v s 15 (λ e. omega (arith, e))) v.last;
    plain = filled-plain;
    words = filled-words;
  }

  abbrev w : TrbRing
  w = wrapped (filled r o t) o

  wrapped-last : block w 15 ≡ with_cycle (not o) (block (filled r o t) 15)
  wrapped-last =
      get_or-set_self (filled r o t).trbs 15 (with_cycle (not o) (block (filled r o t) 15)) zero_trb
        (rw filled-length (omega arith))

  wrapped-other : (j : ℕ) → 15 ≢ j → block w j ≡ block (filled r o t) j
  wrapped-other j d =
      get_or-set_ne (filled r o t).trbs 15 j (with_cycle (not o) (block (filled r o t) 15)) zero_trb
        d

  wrapped-ours : r.current_index ≡ 14 → (j : ℕ) → j < 16 → cycle_state (block w j) ≡ not o
  wrapped-ours e j h = elim (by_index 15 j) [
    | inl at ↦ rw (sym at, wrapped-last) (cycle_state-with_cycle (block (filled r o t) 15) (not o))
    | inr ne ↦ rw (wrapped-other j ne) (filled-sent j (omega arith))
  ]

  wrapped-words : (j : ℕ) → IsTrb (block w j)
  wrapped-words j = elim (by_index 15 j) [
    | inl at ↦
        rw (sym at, wrapped-last)
          (with_cycle-IsTrb (block (filled r o t) 15) (not o) (filled-words 15))
    | inr ne ↦ rw (wrapped-other j ne) (filled-words j)
  ]

  link-good : r.current_index ≡ 14 → IsCommandRing (record { ring = w; cycle_state_ours = not o })
  link-good e = record {
    blocks =
        length-set (filled r o t).trbs 15 (with_cycle (not o) (block (filled r o t) 15))
        ∙ filled-length;
    index = omega arith;
    sent = λ j lt. absurd (omega (arith, lt));
    ours = λ j le lt. wrapped-ours e j lt;
    last =
        rw
          (
            wrapped-last,
            trb_type-with_cycle (block (filled r o t) 15) (not o),
            filled-other c t v s 15 (λ d. omega (arith, d, e)),
          )
          v.last;
    plain = λ j lt. rw (wrapped-other j (λ d. omega (arith, d))) (filled-plain j lt);
    words = wrapped-words;
  }

  Pushed-plain : r.current_index + 1 < 15 → Pushed c t
  Pushed-plain h = record {
    result = record { ring = filled r o t; cycle_state_ours = o };
    runs = push-plain c t v s h;
    good = plain-good h;
    base = refl;
    index = omega arith;
    cycle = ap (λ n. round_state o n) {x = 0} {y = (r.current_index + 1) / 15} (omega arith);
    stored = filled-at c t v s;
    kept = λ j lt ne. filled-other c t v s j ne;
  }

  Pushed-link : r.current_index ≡ 14 → Pushed c t
  Pushed-link e = record {
    result = record { ring = w; cycle_state_ours = not o };
    runs = push-link c t v s e;
    good = link-good e;
    base = refl;
    index = omega arith;
    cycle = ap (λ n. round_state o n) {x = 1} {y = (r.current_index + 1) / 15} (omega arith);
    stored = wrapped-other r.current_index (λ d. omega (arith, e, d)) ∙ filled-at c t v s;
    kept = λ j lt ne. wrapped-other j (λ d. omega (arith, d)) ∙ filled-other c t v s j ne;
  }

-- A push of a command into a well-formed command ring always succeeds, and never reports that
-- the ring is full: it returns the address of the slot at the index, stores the command there
-- with its cycle bit set to the controller's value, changes no other command slot, moves the
-- index to the next of the fifteen slots, and leaves the ring well formed.
pub push_lem : (c : CommandRing) (t : Trb) → IsCommandRing c → IsCommand t → Pushed c t
push_lem c t v s = elim (by_index c.ring.current_index 14) [
  | inl e ↦ Pushed-link c t v s e
  | inr ne ↦ Pushed-plain c t v s (omega (arith, v.index))
]

-- ===== src/Xhci/Command/Sequence.antt =====
-- Sequences of commands, from the ring that `CommandRing::default` builds.
use mushix.Prelude.{
  ℕ, zero, suc, ◌+◌, ◌*◌, ◌/◌, ◌%◌, ◌<◌, ◌≤◌, ◌≡◌, ◌≢◌, inl, inr, arith, ◌∙◌, ap, ap₂, sym, refl,
  false, List, [], ◌∷◌, set, get_or, length, ok, All, replicate, get_or-replicate, get_or-set_ne,
}
use mushix.Xhci.Trb.{Trb, zero_trb, cycle_state}
use mushix.Xhci.Trb.Laws.{trb_link_lem, link_trb, trb_type-link_trb, zero_trb_lem, IsTrb}
use mushix.Xhci.Ring
use mushix.Xhci.Ring.{TrbRing}
use mushix.Xhci.Ring.Laws.{block, write_lem}
use mushix.Xhci.Command.{CommandRing, push_all, default}
use mushix.Xhci.Command.Push.{IsCommandRing, IsCommand, handed_over, round_state, round_state-add}
use mushix.Xhci.Command.Full.{Pushed, push_lem, by_index}

-- The ring that the driver starts from.
abbrev pub started : ℕ → CommandRing
started base = record {
  ring = record {
    base = base;
    trbs = set (replicate 16 zero_trb) 15 (link_trb base);
    current_index = 0;
  };
  cycle_state_ours = false;
}

pub default-eq : (base : ℕ) → default base ≡ ok (started base)
unfolding default
default-eq base =
    rw (trb_link_lem base, write_lem (Ring.new base) 15 (link_trb base) (omega arith)) refl

block-started : (base j : ℕ) → 15 ≢ j → block (started base).ring j ≡ zero_trb
block-started base j h =
    get_or-set_ne (replicate 16 zero_trb) 15 j (link_trb base) zero_trb h
    ∙ get_or-replicate 16 j zero_trb

pub started-IsCommandRing : (base : ℕ) → IsCommandRing (started base)
started-IsCommandRing base = record {
  blocks = refl;
  index = omega arith;
  sent = λ j h. absurd (omega (arith, h));
  ours = ours;
  last = (trb_type-link_trb base).0;
  plain = λ j h. rw (block-started base j (λ e. omega (arith, e)), zero_trb_lem.0) (omega arith);
  words = words;
}
  where
    ours : (j : ℕ) → 0 ≤ j → j < 16 → cycle_state (block (started base).ring j) ≡ false
    ours j le h = elim (by_index 15 j) [
      | inl e ↦ rw (sym e) (trb_type-link_trb base).1
      | inr ne ↦ rw (block-started base j ne) zero_trb_lem.1
    ]

    words : (j : ℕ) → IsTrb (block (started base).ring j)
    words j = elim (by_index 15 j) [
      | inl e ↦ rw (sym e) (omega arith)
      | inr ne ↦ rw (block-started base j ne) (omega arith)
    ]

-- The addresses of `n` slots from slot `i` on, fifteen slots to a round.
abbrev pub slots : ℕ → ℕ → ℕ → List ℕ
slots base i zero = []
slots base i (suc n) = (base + 16 * (i % 15)) ∷ slots base (i + 1) n

slots-mod : (base i n : ℕ) → slots base (i % 15) n ≡ slots base i n
slots-mod base i zero = refl
slots-mod base i (suc n) =
    ap₂ (λ a rest. (base + 16 * a) ∷ rest) (omega arith)
      (sym (slots-mod base (i % 15 + 1) n)
        ∙ ap (λ k. slots base k n) (omega arith)
        ∙ slots-mod base (i + 1) n)

-- What `push_all` leaves in the ring.
record Filled (c : CommandRing) (ts : List Trb) (c' : CommandRing) : Type 0 where
  kept :
      (j : ℕ)
      → j < 15
      → ((k : ℕ) → k < length ts → (c.ring.current_index + k) % 15 ≢ j)
      → block c'.ring j ≡ block c.ring j
  stored :
      (k : ℕ)
      → k < length ts
      → length ts ≤ k + 15
      → block c'.ring ((c.ring.current_index + k) % 15)
        ≡ handed_over
            (round_state c.cycle_state_ours ((c.ring.current_index + k) / 15))
            (get_or ts k zero_trb)

module _ (c : CommandRing) (t : Trb) (ts : List Trb) (v : IsCommandRing c) (p : Pushed c t) where
  abbrev i : ℕ
  i = c.ring.current_index

  module _ (c' : CommandRing) (f : Filled p.result ts c') where
    step-kept :
        (j : ℕ)
        → j < 15
        → ((k : ℕ) → k < suc (length ts) → (i + k) % 15 ≢ j)
        → block c'.ring j ≡ block c.ring j
    step-kept j lt ne =
        f.kept j lt (λ k le e. ne (suc k) (omega (arith, le)) (omega (arith, e, p.index)))
        ∙ p.kept j lt (λ e. ne 0 (omega arith) (omega (arith, e, lt)))

    step-stored :
        (k : ℕ)
        → k < suc (length ts)
        → suc (length ts) ≤ k + 15
        → block c'.ring ((i + k) % 15)
          ≡ handed_over (round_state c.cycle_state_ours ((i + k) / 15)) (get_or (t ∷ ts) k zero_trb)
    step-stored zero lt le =
        ap (block c'.ring) {x = (i + 0) % 15} {y = i} (omega (arith, v.index))
        ∙ f.kept i v.index (λ k lt' e. omega (arith, lt', le, e, p.index, v.index))
        ∙ p.stored
        ∙ ap (λ n. handed_over (round_state c.cycle_state_ours n) t) {x = 0} {y = (i + 0) / 15}
            (omega (arith, v.index))
    step-stored (suc k) lt le =
        ap (block c'.ring) {x = (i + suc k) % 15} {y = (p.result.ring.current_index + k) % 15}
          (omega (arith, p.index))
        ∙ f.stored k (omega (arith, lt)) (omega (arith, le))
        ∙ ap (λ o. handed_over o (get_or ts k zero_trb)) state
      where
        state :
            round_state p.result.cycle_state_ours ((p.result.ring.current_index + k) / 15)
            ≡ round_state c.cycle_state_ours ((i + suc k) / 15)
        state =
            ap (λ o. round_state o ((p.result.ring.current_index + k) / 15)) p.cycle
            ∙ round_state-add c.cycle_state_ours ((i + 1) / 15)
                ((p.result.ring.current_index + k) / 15)
            ∙ ap (round_state c.cycle_state_ours)
                {x = (p.result.ring.current_index + k) / 15 + (i + 1) / 15} {y = (i + suc k) / 15}
                (omega (arith, p.index, v.index))

    Filled-step : Filled c (t ∷ ts) c'
    Filled-step = record { kept = step-kept; stored = step-stored }

  same_slots :
      (c.ring.base + 16 * i) ∷ slots p.result.ring.base p.result.ring.current_index (length ts)
      ≡ slots c.ring.base i (suc (length ts))
  same_slots =
      rw (p.base, p.index, slots-mod c.ring.base (i + 1) (length ts))
        (ap (λ n. (c.ring.base + 16 * n) ∷ slots c.ring.base (i + 1) (length ts))
          (omega (arith, v.index)))

push_all-Filled :
    (c : CommandRing) (ts : List Trb)
    → IsCommandRing c
    → All IsCommand ts
    → (c' : CommandRing) × (push_all c ts
        ≡ ok (slots c.ring.base c.ring.current_index (length ts), c'))
      × IsCommandRing c'
      × Filled c ts c'
unfolding push_all
push_all-Filled c [] v s =
    (c, refl, v, record { kept = λ j lt ne. refl; stored = λ k lt le. absurd (omega (arith, lt)) })
push_all-Filled c (t ∷ ts) v s =
    let p = push_lem c t v s.0 in
    let (c', runs, good, f) = push_all-Filled p.result ts p.good s.1 in
    (
      c',
      rw (p.runs, runs) (ap (λ ptrs. ok (ptrs, c')) (same_slots c t ts v p)),
      good,
      Filled-step c t ts v p c' f,
    )

-- A sequence of commands is pushed whole onto a well-formed command ring, although nothing was
-- consumed in between: the k-th goes to slot (index + k) mod 15, so that the sixteenth overwrites
-- the first; each of the last fifteen stands in its slot with the cycle bit of its round handed
-- over, every command slot that none went to is kept, and the ring stays well formed.
pub push_all_lem :
    (c : CommandRing) (ts : List Trb)
    → IsCommandRing c
    → All IsCommand ts
    → (c' : CommandRing) × (push_all c ts
        ≡ ok (slots c.ring.base c.ring.current_index (length ts), c'))
      × IsCommandRing c'
      × ((k : ℕ)
          → k < length ts
          → length ts ≤ k + 15
          → block c'.ring ((c.ring.current_index + k) % 15)
            ≡ handed_over
                (round_state c.cycle_state_ours ((c.ring.current_index + k) / 15))
                (get_or ts k zero_trb))
      × ((j : ℕ)
          → j < 15
          → ((k : ℕ) → k < length ts → (c.ring.current_index + k) % 15 ≢ j)
          → block c'.ring j ≡ block c.ring j)
push_all_lem c ts v s =
    let (c', runs, good, f) = push_all-Filled c ts v s in (c', runs, good, f.stored, f.kept)

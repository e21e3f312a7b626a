-- ===== src/Xhci/Event/Queue.antt =====
-- The event ring is a queue: what the controller posts, `pop` takes out in order.
use mushix.Prelude.{
  ℕ, suc, ◌+◌, ◌*◌, ◌%◌, ◌<◌, ◌≤◌, ◌≡◌, ◌≢◌, ◌⊎◌, inl, inr, ◌∙◌, ap, sym, refl, arith, Bool, true,
  false, not, List, [], ◌∷◌, ◌++◌, get_or, set, length, length-set, get_or-set_self, get_or-set_ne,
  ltb, ◌==◌, if◌then◌else◌, none, some, ok, bit_and, bit_or, length-append, get_or-append_left,
  get_or-append_length,
}
use mushix.Xhci.Trb.{Trb, zero_trb, cycle_state}
use mushix.Xhci.Trb.Laws.{with_cycle, cycle_state-with_cycle}
use mushix.Xhci.Ring.{same}
use mushix.Xhci.Ring.Laws.{block, current_lem, same_refl, advance_index_notoggle_lem}
use mushix.Xhci.Event.{EventRing, pop, has_next_event}

-- The cycle bit that marks an event `k` blocks ahead of index `i`, where the next one has bit `o`.
abbrev pub cycle_ahead : ℕ → Bool → ℕ → Bool
cycle_ahead i o k = if ltb (i + k) 16 then o else not o

-- The ring holds the events `pending`, the oldest at the index, and nothing else new.
pub record Holds (e : EventRing) (pending : List Trb) : Type 0 where
  pub blocks : length e.ring.trbs ≡ 16
  pub index : e.ring.current_index < 16
  pub fits : length pending ≤ 16
  pub posted :
      (k : ℕ)
      → k < length pending
      → block e.ring ((e.ring.current_index + k) % 16)
        ≡ with_cycle
            (cycle_ahead e.ring.current_index e.cycle_state_ours k)
            (get_or pending k zero_trb)
  pub vacant :
      (k : ℕ)
      → length pending ≤ k
      → k < 16
      → cycle_state (block e.ring ((e.ring.current_index + k) % 16))
        ≡ not (cycle_ahead e.ring.current_index e.cycle_state_ours k)

-- What the controller does to post an event behind `n` others: it writes the block with its cycle bit.
abbrev pub post : EventRing → ℕ → Trb → EventRing
post e n t = record e {
  ring = record e.ring {
    trbs =
        set e.ring.trbs ((e.ring.current_index + n) % 16)
          (with_cycle (cycle_ahead e.ring.current_index e.cycle_state_ours n) t);
  };
}

-- The ring behind a `pop`.
abbrev pub popped : EventRing → ℕ → EventRing
popped e old = record e {
  ring = record e.ring { current_index = (e.ring.current_index + 1) % 16 };
  erdp = some (bit_or (e.ring.base + 16 * e.ring.current_index) (bit_and old 15));
  cycle_state_ours =
      if (e.ring.current_index + 1) % 16 == 0 then not e.cycle_state_ours else e.cycle_state_ours;
}

cycle_ahead-zero : (i : ℕ) (o : Bool) → i < 16 → cycle_ahead i o 0 ≡ o
cycle_ahead-zero i o h = ground arith

-- One block on, the bits ahead are the same.
cycle_ahead-suc :
    (i : ℕ) (o : Bool) (k : ℕ)
    → i < 16
    → k < 15
    → cycle_ahead ((i + 1) % 16) (if (i + 1) % 16 == 0 then not o else o) k
      ≡ cycle_ahead i o (k + 1)
cycle_ahead-suc i o k h hk = elim (last i h) [ inl e ↦ rw e (ground arith) | inr lt ↦ ground arith ]
  where
    last : (i : ℕ) → i < 16 → (i ≡ 15) ⊎ (i < 15)
    last i h = omega arith

back : (i : ℕ) → i < 16 → ((i + 1) % 16 + 15) % 16 ≡ i
back i h = omega arith

-- The block that was taken out has the old bit.
cycle_ahead-last :
    (i : ℕ) (o : Bool)
    → i < 16
    → not (cycle_ahead ((i + 1) % 16) (if (i + 1) % 16 == 0 then not o else o) 15) ≡ o
cycle_ahead-last i o h = elim (last i h) [ inl e ↦ rw e (both o) | inr lt ↦ ground arith ]
  where
    last : (i : ℕ) → i < 16 → (i ≡ 15) ⊎ (i < 15)
    last i h = omega arith

    both : (o : Bool) → not (cycle_ahead (16 % 16) (if 16 % 16 == 0 then not o else o) 15) ≡ o
    both true = refl
    both false = refl

slot-ne : (i k n : ℕ) → k < 16 → n < 16 → k ≢ n → (i + n) % 16 ≢ (i + k) % 16
slot-ne i k n hk hn ne = omega arith

by_index : (i j : ℕ) → (i ≡ j) ⊎ (i ≢ j)
by_index i j = omega arith

module _ (e : EventRing) where
  abbrev i : ℕ
  i = e.ring.current_index

  abbrev o : Bool
  o = e.cycle_state_ours

  -- An event that the controller posts, in the next block with that block's cycle bit, into an
  -- event ring that holds fewer than sixteen events joins the end of the queue.
  pub post_lem :
      (ts : List Trb) (t : Trb)
      → Holds e ts
      → length ts < 16
      → Holds (post e (length ts) t) (ts ++ (t ∷ []))
  post_lem ts t v h = record {
    blocks =
        length-set e.ring.trbs ((i + length ts) % 16) (with_cycle (cycle_ahead i o (length ts)) t)
        ∙ v.blocks;
    index = v.index;
    fits = omega (arith, length-append ts (t ∷ []), h);
    posted = posted;
    vacant = vacant;
  }
    where
      other :
          (k : ℕ)
          → k < 16
          → k ≢ length ts
          → block (post e (length ts) t).ring ((i + k) % 16) ≡ block e.ring ((i + k) % 16)
      other k hk ne =
          get_or-set_ne e.ring.trbs ((i + length ts) % 16) ((i + k) % 16)
            (with_cycle (cycle_ahead i o (length ts)) t) zero_trb (slot-ne i k (length ts) hk h ne)

      posted :
          (k : ℕ)
          → k < length (ts ++ (t ∷ []))
          → block (post e (length ts) t).ring ((i + k) % 16)
            ≡ with_cycle (cycle_ahead i o k) (get_or (ts ++ (t ∷ [])) k zero_trb)
      posted k hk = elim (by_index k (length ts)) [
        | inl at ↦
            rw (at, get_or-append_length ts [] t zero_trb)
              (get_or-set_self e.ring.trbs ((i + length ts) % 16)
                (with_cycle (cycle_ahead i o (length ts)) t) zero_trb (omega (arith, v.blocks)))
        | inr ne ↦
            rw
              (
                other k (omega (arith, length-append ts (t ∷ []), h, hk)) ne,
                get_or-append_left ts (t ∷ []) k zero_trb
                    (omega (arith, length-append ts (t ∷ []), hk, ne)),
              )
              (v.posted k (omega (arith, length-append ts (t ∷ []), hk, ne)))
      ]

      vacant :
          (k : ℕ)
          → length (ts ++ (t ∷ [])) ≤ k
          → k < 16
          → cycle_state (block (post e (length ts) t).ring ((i + k) % 16)) ≡ not (cycle_ahead i o k)
      vacant k le hk =
          rw (other k hk (omega (arith, length-append ts (t ∷ []), le)))
            (v.vacant k (omega (arith, length-append ts (t ∷ []), le)) hk)

  in_range : (ts : List Trb) → Holds e ts → i < length e.ring.trbs
  in_range ts v = omega (arith, v.blocks, v.index)

  here : (ts : List Trb) → Holds e ts → (i + 0) % 16 ≡ i
  here ts v = omega (arith, v.index)

  -- An empty queue gives nothing and changes nothing.
  pub pop-empty : Holds e [] → pop e ≡ ok (none, e)
  unfolding pop has_next_event
  pop-empty v = rw (current_lem e.ring (in_range [] v), stale, same-not' o) refl
    where
      stale : cycle_state (block e.ring i) ≡ not o
      stale =
          ap (λ j. cycle_state (block e.ring j)) (sym (here [] v))
          ∙ v.vacant 0 (omega arith) (omega arith)
          ∙ ap not (cycle_ahead-zero i o v.index)

      same-not' : (b : Bool) → same (not b) b ≡ false
      same-not' true = refl
      same-not' false = refl

  -- A queue that is not empty gives its oldest event.
  module _ (t : Trb) (ts : List Trb) (old : ℕ) (v : Holds e (t ∷ ts))
      (known : e.erdp ≡ some old) where
    head : block e.ring i ≡ with_cycle o t
    head =
        ap (λ j. block e.ring j) (sym (here (t ∷ ts) v))
        ∙ v.posted 0 (omega arith)
        ∙ ap (λ c. with_cycle c t) (cycle_ahead-zero i o v.index)

    pub pop-runs : pop e ≡ ok (some (with_cycle o t), popped e old)
    unfolding pop has_next_event
    pop-runs =
        rw
          (
            current_lem e.ring (in_range (t ∷ ts) v),
            head,
            cycle_state-with_cycle t o,
            same_refl o,
            advance_index_notoggle_lem e.ring o (in_range (t ∷ ts) v)
                (rw head (cycle_state-with_cycle t o)),
            known,
            v.blocks,
          )
          refl

    next_slot : (k : ℕ) → ((i + 1) % 16 + k) % 16 ≡ (i + (k + 1)) % 16
    next_slot k = omega arith

    to_suc : (k : ℕ) → k + 1 ≡ suc k
    to_suc k = omega arith

    pub popped-Holds : Holds (popped e old) ts
    popped-Holds = record {
      blocks = v.blocks;
      index = omega arith;
      fits = omega (arith, v.fits);
      posted = λ k h.
          rw (next_slot k, cycle_ahead-suc i o k v.index (omega (arith, v.fits, h)))
            (v.posted (k + 1) (omega (arith, h))
              ∙ ap (with_cycle (cycle_ahead i o (k + 1)))
                  (ap (λ n. get_or (t ∷ ts) n zero_trb) (to_suc k)));
      vacant = vacant;
    }
      where
        vacant :
            (k : ℕ)
            → length ts ≤ k
            → k < 16
            → cycle_state (block e.ring (((i + 1) % 16 + k) % 16))
              ≡ not (cycle_ahead ((i + 1) % 16) (popped e old).cycle_state_ours k)
        vacant k le hk = elim (by_index k 15) [
          | inl at ↦
              rw (at, back i v.index, head, cycle_ahead-last i o v.index)
                (cycle_state-with_cycle t o)
          | inr ne ↦
              rw (next_slot k, cycle_ahead-suc i o k v.index (omega (arith, hk, ne)))
                (v.vacant (k + 1) (omega (arith, le)) (omega (arith, hk, ne)))
        ]

-- What `pop` does to a ring that holds the given events.
abbrev pub Popped : EventRing → List Trb → ℕ → Type 0
Popped e [] old = pop e ≡ ok (none, e)
Popped e (t ∷ ts) old =
    (pop e ≡ ok (some (with_cycle e.cycle_state_ours t), popped e old)) × Holds (popped e old) ts

-- On an event ring that holds a sequence of posted events, `pop` without events returns none and
-- changes nothing; with events it returns the oldest, moves to the next block, toggles the cycle
-- state at the wrap, tells the controller the address of the block it read, and the ring holds
-- the remaining events.
pub pop_lem :
    (e : EventRing) (ts : List Trb) (old : ℕ) → Holds e ts → e.erdp ≡ some old → Popped e ts old
pop_lem e [] old v known = pop-empty e v
pop_lem e (t ∷ ts) old v known = (pop-runs e t ts old v known, popped-Holds e t ts old v known)

-- ===== src/Xhci/Command/Ahead.antt =====
-- Rings that had more commands pushed.
use mushix.Prelude.{ℕ, ◌+◌, ◌*◌, ◌%◌, ◌≡◌, ◌∙◌, arith, ok}
use mushix.Xhci.Trb.{Trb}
use mushix.Xhci.Command.{CommandRing, push}
use mushix.Xhci.Command.Push.{IsCommandRing, IsCommand}
use mushix.Xhci.Command.Full.{push_lem}

-- The address of the slot `k` pushes ahead.
abbrev pub slot_ahead : CommandRing → ℕ → ℕ
slot_ahead c k = c.ring.base + 16 * ((c.ring.current_index + k) % 15)

-- A ring that had `k` more commands pushed.
pub record Ahead (c c' : CommandRing) (k : ℕ) : Type 0 where
  pub good : IsCommandRing c'
  pub base : c'.ring.base ≡ c.ring.base
  pub index : c'.ring.current_index ≡ (c.ring.current_index + k) % 15

pub push-Ahead :
    (c : CommandRing) (t : Trb)
    → IsCommandRing c
    → IsCommand t
    → (c' : CommandRing) × (push c t ≡ ok (slot_ahead c 0, c')) × Ahead c c' 1
push-Ahead c t v s =
    let p = push_lem c t v s in
    let here : c.ring.base + 16 * c.ring.current_index ≡ slot_ahead c 0 = omega (arith, v.index) in
    (p.result, rw p.runs (rw here), record { good = p.good; base = p.base; index = p.index })

module _ {c c1 : CommandRing} {j : ℕ} (a : Ahead c c1 j) where
  pub Ahead-trans : {c2 : CommandRing} {k : ℕ} → Ahead c1 c2 k → Ahead c c2 (j + k)
  Ahead-trans b = record {
    good = b.good;
    base = b.base ∙ a.base;
    index = omega (arith, a.index, b.index);
  }

  pub Ahead-slot : (k : ℕ) → slot_ahead c1 k ≡ slot_ahead c (j + k)
  Ahead-slot k = omega (arith, a.base, a.index)

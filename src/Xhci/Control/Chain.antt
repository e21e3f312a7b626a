-- ===== src/Xhci/Control/Chain.antt =====
-- Requests without data in a row.
use mushix.Prelude.{
  ℕ, ◌+◌, ◌<◌, ◌≡◌, refl, ap, ap₂, ◌∙◌, arith, List, [], ◌∷◌, ◌++◌, length, lt→ltb, ok,
}
use mathlib.Core.List.{append_assoc}
use mushix.Xhci.Trb.{Trb, transfer_result_ok}
use mushix.Xhci.Trb.Stages.{status_stage_in}
use mushix.Xhci.Command.Ahead.{Ahead-trans, Ahead-slot, slot_ahead}
use mushix.Xhci.Control.{Sent, Xhc, Endpoint, M}
use mushix.Xhci.Control.Push.{Reached, block_ahead}
use mushix.Xhci.Control.Requests.{Requests, no_data_sent}

-- The two blocks of a request, `k` blocks ahead.
abbrev pub request_blocks : Endpoint → ℕ → Trb → List Sent
request_blocks e k setup =
    block_ahead e.ring k setup ∷ block_ahead e.ring (k + 1) status_stage_in ∷ []

-- When every event is a success, one more request succeeds and adds its two blocks.
pub Requests-Reached :
    (xhc : Xhc) (slot : ℕ) (e e1 : Endpoint) (blocks : List Sent) (k : ℕ)
    (run : M Endpoint (Unit {0})) (setup : Trb) (r : Reached e e1 blocks k)
    → Requests xhc slot e1 r.ahead.good run setup
    → slot < length xhc.doorbell_regs
    → ((sent : List Sent) (ptr : ℕ) → transfer_result_ok (xhc.device sent ptr).event ≡ ok tt)
    → (e2 : Endpoint) × (run e1 ≡ (ok tt, e2))
      × Reached e e2 (blocks ++ request_blocks e k setup) (k + 2)
Requests-Reached xhc slot e e1 blocks k run setup r (ring, runs, ahead) bell succeeds = (
  record { ring = ring; sent = no_data_sent e1 setup },
  rw
      (
        runs,
        lt→ltb slot (length xhc.doorbell_regs) bell,
        succeeds (no_data_sent e1 setup) (slot_ahead e1.ring 1),
      )
      refl,
  record {
    ahead = Ahead-trans r.ahead ahead;
    sent =
        ap₂ (λ (a b : ℕ). e1.sent ++ ((a, setup) ∷ (b, status_stage_in) ∷ []))
          (Ahead-slot r.ahead 0 ∙ ap (slot_ahead e.ring) (omega arith)) (Ahead-slot r.ahead 1)
        ∙ ap (λ (sent : List Sent). sent ++ request_blocks e k setup) r.sent
        ∙ append_assoc e.sent blocks (request_blocks e k setup);
  },
)

-- ===== src/Xhci/Control/Push.antt =====
-- One block of a control request, and the wait for its event.
use mushix.Prelude.{
  ℕ, ◌+◌, ◌≡◌, refl, sym, ap, ◌∙◌, arith, List, [], ◌∷◌, ◌++◌, length, inl, inr, Bool-cases, ltb→lt,
  ltb, if◌then◌else◌, Result, ok, err, panic, ◌>>=◌, ◌>>◌,
}
use mathlib.Core.List.{append_assoc, append-nil}
use mushix.Volatile
use mushix.Xhci.Trb.{Trb, trb_type, transfer_result_ok}
use mushix.Xhci.Trb.Stages.{
  setup_stage_trb, transfer_type, data_stage_in, status_stage_in, status_stage_out,
}
use mushix.Xhci.Regs.Laws.{notify_ep-found, notify_ep-err}
use mushix.Xhci.Command.{CommandRing}
use mushix.Xhci.Command.Push.{IsCommandRing, IsCommand}
use mushix.Xhci.Command.Ahead.{Ahead, Ahead-trans, Ahead-slot, slot_ahead, push-Ahead}
use mushix.Xhci.Control.{Sent, Xhc, Endpoint, push_trb, finish, then_in, lift}

pub setup_stage_trb-IsCommand :
    (request_type request value index len : ℕ)
    → IsCommand (setup_stage_trb request_type request value index len)
unfolding setup_stage_trb transfer_type trb_type Volatile.read_bits
setup_stage_trb-IsCommand request_type request value index len = record {
  word = ground arith;
  plain = ground arith;
}

pub data_stage_in-IsCommand : (buf bytes : ℕ) → IsCommand (data_stage_in buf bytes)
unfolding data_stage_in trb_type Volatile.read_bits
data_stage_in-IsCommand buf bytes = record { word = omega arith; plain = omega arith }

pub status_stage_in-IsCommand : IsCommand status_stage_in
unfolding status_stage_in trb_type Volatile.read_bits
status_stage_in-IsCommand = record { word = omega arith; plain = omega arith }

pub status_stage_out-IsCommand : IsCommand status_stage_out
unfolding status_stage_out trb_type Volatile.read_bits
status_stage_out-IsCommand = record { word = omega arith; plain = omega arith }

-- The block that the next push of `t` sends.
abbrev pub block_ahead : CommandRing → ℕ → Trb → Sent
block_ahead c k t = (slot_ahead c k, t)

-- An endpoint that was sent `blocks` more, `k` of them.
pub record Reached (e e' : Endpoint) (blocks : List Sent) (k : ℕ) : Type 0 where
  pub ahead : Ahead e.ring e'.ring k
  pub sent : e'.sent ≡ e.sent ++ blocks

pub Reached-start : (e : Endpoint) → IsCommandRing e.ring → Reached e e [] 0
Reached-start e v = record {
  ahead = record { good = v; base = refl; index = omega (arith, v.index) };
  sent = sym (append-nil e.sent);
}

-- The next block goes to the next slot, and is always accepted.
pub push_trb_lem :
    (e e1 : Endpoint) (blocks : List Sent) (k : ℕ) (t : Trb)
    → Reached e e1 blocks k
    → IsCommand t
    → (e2 : Endpoint) × (push_trb t e1 ≡ (ok (slot_ahead e.ring k), e2))
      × Reached e e2 (blocks ++ (block_ahead e.ring k t ∷ [])) (k + 1)
unfolding push_trb
push_trb_lem e e1 blocks k t r s =
    let (ring, runs, ahead) = push-Ahead e1.ring t r.ahead.good s in
    let here : slot_ahead e1.ring 0 ≡ slot_ahead e.ring k =
      Ahead-slot r.ahead 0 ∙ ap (slot_ahead e.ring) (omega arith) in
    (
      record { ring = ring; sent = e1.sent ++ ((slot_ahead e.ring k, t) ∷ []) },
      rw (runs, here) refl,
      record {
        ahead = Ahead-trans r.ahead ahead;
        sent =
            ap (λ (sent : List Sent). sent ++ (block_ahead e.ring k t ∷ [])) r.sent
            ∙ append_assoc e.sent blocks (block_ahead e.ring k t ∷ []);
      },
    )

-- A value is put into another shape, in each result.
pub then_in-lift :
    {S A B : Type 0} (r : Result A) (e : S) (g : A → B)
    → then_in (r, e) (λ a. lift (ok (g a))) ≡ (r >>= λ a. ok (g a), e)
then_in-lift (ok a) e g = refl
then_in-lift (err m) e g = refl
then_in-lift (panic m) e g = refl

-- What a request gets when its blocks are pushed: its slot needs a doorbell, and the event of the
-- block that is waited for decides.
abbrev pub outcome : Xhc → (slot : ℕ) → List Sent → (ptr : ℕ) → Result (List ℕ)
outcome xhc slot sent ptr =
    if ltb slot (length xhc.doorbell_regs)
    then transfer_result_ok (xhc.device sent ptr).event >> ok (xhc.device sent ptr).incoming
    else err "Invalid slot"

pub finish_lem :
    (xhc : Xhc) (slot ptr : ℕ) (e : Endpoint)
    → finish xhc slot ptr e ≡ (outcome xhc slot e.sent ptr, e)
finish_lem xhc slot ptr e = elim (Bool-cases (ltb slot (length xhc.doorbell_regs))) [
  | inl has ↦
      rw (has, notify_ep-found xhc.doorbell_regs slot 1 xhc.usbsts (ltb→lt _ _ has) (omega arith))
        (then_in-lift (transfer_result_ok (xhc.device e.sent ptr).event) e
          (λ (u : Unit {0}). (xhc.device e.sent ptr).incoming))
  | inr no_bell ↦
      rw (no_bell, notify_ep-err xhc.doorbell_regs slot 1 xhc.usbsts (ground arith)) refl
]

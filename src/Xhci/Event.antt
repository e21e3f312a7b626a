-- ===== src/Xhci/Event.antt =====
-- `EventRing`, `EventWaitInfo` and `EventFuture` of src/xhci.rs: the ring that the controller fills,
-- and the waiters that its events are handed to.
pub mod Queue
pub mod Fresh
mod Examples
pub mod Waiters
use mushix.Prelude.{
  ℕ, zero, suc, ◌+◌, ◌-◌, ◌%◌, bit_and, bit_or, Bool, true, false, not, ◌&&◌, ◌||◌, List, [], ◌∷◌,
  ◌++◌, Option, none, some, length, ◌==◌, if◌then◌else◌, Result, ok, err, expect, ◌>>=◌, ◌>>◌,
}
use mushix.Word.{u16}
use mushix.Xhci.Trb.{
  Trb, TrbType, number, cycle_state, trb_type, slot_id, trb_link, transfer_event,
  command_completion_event,
}
use mushix.Xhci.Ring
use mushix.Xhci.Ring.{TrbRing}

pub record EventWaitCond : Type 0 where
  pub wanted_type : Option TrbType
  pub trb_addr : Option ℕ
  pub slot : Option ℕ

-- A weak reference to an `EventWaitInfo`: `live` while the future that owns it is.
pub record Waiter : Type 0 where
  pub cond : EventWaitCond
  pub trbs : List Trb
  pub live : Bool

-- One condition of `matches`: it holds when it is absent.
abbrev pub agrees {ℓ} : {A : Type ℓ} → Option A → (A → Bool) → Bool
agrees none f = true
agrees (some a) f = f a

pub matches : EventWaitCond → Trb → Bool
matches cond trb =
    agrees cond.trb_addr (λ a. trb.data_ == a)
    && agrees cond.wanted_type (λ t. trb_type trb == number t)
    && agrees cond.slot (λ s. slot_id trb == s)

pub resolve : Waiter → Trb → Waiter
resolve w trb = record w { trbs = w.trbs ++ (trb ∷ []) }

pub record SegmentTableEntry : Type 0 where
  pub ring_segment_base_address : ℕ
  pub ring_segment_size : ℕ

-- `erdp` is the controller's register, behind the pointer once `set_erdp` gave it.
pub record EventRing : Type 0 where
  pub ring : TrbRing
  pub erst : SegmentTableEntry
  pub cycle_state_ours : Bool
  pub erdp : Option ℕ
  pub wait_list : List Waiter

-- `EventRing::new()`, given the address of the ring's page.
pub new : ℕ → Result EventRing
new base = do
  t ← trb_link (Ring.phys_addr (Ring.new base))
  r ← Ring.write (Ring.new base) (Ring.num_trb - 1) t
  ok (record {
    ring = r;
    erst = record { ring_segment_base_address = base; ring_segment_size = u16 Ring.num_trb };
    cycle_state_ours = true;
    erdp = none;
    wait_list = [];
  })

pub set_erdp : EventRing → ℕ → EventRing
set_erdp e value = record e { erdp = some value }

pub has_next_event : EventRing → Result Bool
has_next_event e = do t ← Ring.current e.ring; ok (Ring.same (cycle_state t) e.cycle_state_ours)

-- `pop` behind the test: step, tell the controller, and toggle at the ring's start.
abbrev take_event : EventRing → Trb → Result (Option Trb × EventRing)
take_event e t = do
  let eptr = Ring.current_ptr e.ring
  r ← Ring.advance_index_notoggle e.ring e.cycle_state_ours
  old ← expect e.erdp "EventRing erdp is not set"
  let ours = if r.current_index == 0 then not e.cycle_state_ours else e.cycle_state_ours
  ok (
    some t,
    record e { ring = r; erdp = some (bit_or eptr (bit_and old 15)); cycle_state_ours = ours },
  )

pub pop : EventRing → Result (Option Trb × EventRing)
pop e = do
  next ← has_next_event e
  if not next then ok (none, e) else do t ← Ring.current e.ring; take_event e t

pub register_waiter : EventRing → Waiter → EventRing
register_waiter e w = record e { wait_list = e.wait_list ++ (w ∷ []) }

-- The loop of `poll`: the first live waiter that matches gets the event.
pub hand_to : List Waiter → Trb → List Waiter
hand_to [] t = []
hand_to (w ∷ ws) t =
    let rest = hand_to ws t in if w.live && matches w.cond t then resolve w t ∷ ws else w ∷ rest

-- The indices of the stale waiters, the last first.
abbrev stale_indices_from : ℕ → List Waiter → List ℕ
stale_indices_from n [] = []
stale_indices_from n (w ∷ ws) =
    let rest = stale_indices_from (n + 1) ws in if w.live then rest else rest ++ (n ∷ [])

pub stale_waiter_indices : List Waiter → List ℕ
stale_waiter_indices ws = stale_indices_from 0 ws

-- `VecDeque::remove`
abbrev pub remove : List Waiter → ℕ → List Waiter
remove [] k = []
remove (w ∷ ws) zero = ws
remove (w ∷ ws) (suc k) = w ∷ remove ws k

abbrev pub remove_all : List Waiter → List ℕ → List Waiter
remove_all ws [] = ws
remove_all ws (k ∷ ks) = remove_all (remove ws k) ks

pub drop_stale : List Waiter → List Waiter
drop_stale ws = remove_all ws (stale_waiter_indices ws)

pub poll : EventRing → Result EventRing
poll e = do
  (t, e) ← pop e
  ok (elim t [ none ↦ e | some t ↦ record e { wait_list = drop_stale (hand_to e.wait_list t) } ])

-- `EventFuture::new_for_trb` and `new_for_command`: the waiter that is registered.
pub new_for_trb : ℕ → Waiter
new_for_trb trb_addr = record {
  cond = record { wanted_type = some transfer_event; trb_addr = some trb_addr; slot = none };
  trbs = [];
  live = true;
}

pub new_for_command : ℕ → Waiter
new_for_command trb_addr = record {
  cond = record {
    wanted_type = some command_completion_event;
    trb_addr = some trb_addr;
    slot = none;
  };
  trbs = [];
  live = true;
}

-- `EventFuture::poll`: `none` is pending.
pub poll_future : Waiter → Option Trb × Waiter
poll_future w = elim w.trbs [ [] ↦ (none, w) | t ∷ ts ↦ (some t, record w { trbs = ts }) ]

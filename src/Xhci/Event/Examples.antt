-- ===== src/Xhci/Event/Examples.antt =====
-- Concrete event rings: the theorems at work, and the code run.
use mushix.Prelude.{◌≡◌, refl, arith, true, false, List, [], ◌∷◌, ◌++◌, some, ok, All}
use mushix.Xhci.Trb.{Trb, trb_type}
use mushix.Volatile
use mushix.Xhci.Trb.Laws.{with_cycle}
use mushix.Xhci.Event.{
  EventRing, Waiter, matches, pop, poll, new, set_erdp, resolve, new_for_command,
}
use mushix.Xhci.Event.Fresh.{fresh, fresh-Holds, new-Holds}
use mushix.Xhci.Event.Queue.{Holds, post, Popped, popped, post_lem, pop_lem}
use mushix.Xhci.Event.Waiters.{live_only, takes, poll_lem}

-- A completion event for the command at 0x2000, of slot 1.
abbrev completion : Trb
completion = record { data_ = 0x2000; option = 0x1000000; control = 0x1008400 }

completion-trb_type : trb_type completion ≡ 33
unfolding trb_type Volatile.read_bits
completion-trb_type = refl

abbrev empty : EventRing
empty = record (fresh 0x1000) { erdp = some 0x1008 }

empty-Holds : Holds empty []
unfolding set_erdp
empty-Holds = fresh-Holds 0x1000 0x1008

abbrev one_event : EventRing
one_event = post empty 0 completion

one_event-Holds : Holds one_event (completion ∷ [])
one_event-Holds = post_lem empty [] completion empty-Holds (omega arith)

new-Holds_example : (e : EventRing) × (new 0x1000 ≡ ok e) × Holds (set_erdp e 0x1008) []
new-Holds_example = new-Holds 0x1000 0x1008

pop_lem_example : Popped one_event (completion ∷ []) 0x1008
pop_lem_example = pop_lem one_event (completion ∷ []) 0x1008 one_event-Holds refl

-- The next block, and bit 3 of the register kept.
popped_state :
    ((popped one_event 0x1008).erdp ≡ some 0x1008)
    × ((popped one_event 0x1008).ring.current_index ≡ 1)
popped_state = (refl, refl)

abbrev gone : Waiter
gone = record (new_for_command 0x2000) { live = false }

abbrev waiting : List Waiter
waiting = gone ∷ new_for_command 0x3000 ∷ gone ∷ new_for_command 0x2000 ∷ []

abbrev waited_for : EventRing
waited_for = record one_event { wait_list = waiting }

abbrev arrived : Trb
arrived = with_cycle true completion

waited_for-pop : pop waited_for ≡ ok (some arrived, popped waited_for 0x1008)
waited_for-pop =
    (pop_lem waited_for (completion ∷ []) 0x1008
      (record {
        blocks = h.blocks;
        index = h.index;
        fits = h.fits;
        posted = h.posted;
        vacant = h.vacant;
      })
      refl).0
  where
    h : Holds one_event (completion ∷ [])
    h = one_event-Holds

not_taken : All (λ v. takes v arrived ≡ false) (gone ∷ new_for_command 0x3000 ∷ gone ∷ [])
unfolding new_for_command matches trb_type Volatile.read_bits
not_taken = (refl, (refl, (refl, tt)))

taken : takes (new_for_command 0x2000) arrived ≡ true
unfolding new_for_command matches trb_type Volatile.read_bits
taken = refl

-- The stale waiters leave, and the last waiter has the event.
poll_lem_example :
    poll waited_for
    ≡ ok (record (popped waited_for 0x1008) {
      wait_list = live_only (
          (gone ∷ new_for_command 0x3000 ∷ gone ∷ [])
          ++ (resolve (new_for_command 0x2000) arrived ∷ []));
    })
poll_lem_example =
    poll_lem waited_for (popped waited_for 0x1008) arrived
      (gone ∷ new_for_command 0x3000 ∷ gone ∷ []) (new_for_command 0x2000) [] waited_for-pop refl
      not_taken taken

-- ===== src/Xhci/Event/Waiters.antt =====
-- `poll`: one waiter gets the event, and the waiters whose futures are gone are dropped.
use mathlib.Core.List.{append_assoc}
use mushix.Prelude.{
  inl, inr, ap₂, length, length-append, Bool-cases, ℕ, ◌+◌, ◌≡◌, ◌∙◌, ap, sym, refl, arith, Bool,
  true, false, ◌&&◌, List, [], ◌∷◌, ◌++◌, some, All, ok, if◌then◌else◌,
}
use mushix.Xhci.Trb.{Trb, trb_type}
use mushix.Xhci.Event.{
  EventRing, Waiter, matches, resolve, hand_to, stale_waiter_indices, stale_indices_from, remove,
  remove_all, drop_stale, poll, pop, new_for_command, poll_future,
}

-- The waiters that are still waited for.
abbrev pub live_only : List Waiter → List Waiter
live_only [] = []
live_only (w ∷ ws) = if w.live then w ∷ live_only ws else live_only ws

abbrev pub takes : Waiter → Trb → Bool
takes w t = w.live && matches w.cond t

remove_all-append :
    (ws : List Waiter) (ks : List ℕ) (k : ℕ)
    → remove_all ws (ks ++ (k ∷ [])) ≡ remove (remove_all ws ks) k
remove_all-append ws [] k = refl
remove_all-append ws (j ∷ ks) k = remove_all-append (remove ws j) ks k

remove-append :
    (before : List Waiter) (w : Waiter) (after : List Waiter)
    → remove (before ++ (w ∷ after)) (length before) ≡ before ++ after
remove-append [] w after = refl
remove-append (v ∷ before) w after = ap (λ us. v ∷ us) (remove-append before w after)

remove_stale :
    (before ws : List Waiter)
    → remove_all (before ++ ws) (stale_indices_from (length before) ws) ≡ before ++ live_only ws
remove_stale before [] = refl
remove_stale before (w ∷ ws) =
    let later : remove_all (before ++ (w ∷ ws)) (stale_indices_from (length before + 1) ws)
        ≡ (before ++ (w ∷ [])) ++ live_only ws =
      regroup ∙ remove_stale (before ++ (w ∷ [])) ws in
    elim (Bool-cases w.live) [
      | inl e ↦ simp e (later ∙ append_assoc before (w ∷ []) (live_only ws))
      | inr e ↦ simp e (
          remove_all-append (before ++ (w ∷ ws)) (stale_indices_from (length before + 1) ws)
            (length before)
          ∙ ap (λ us. remove us (length before))
              (later ∙ append_assoc before (w ∷ []) (live_only ws))
          ∙ remove-append before w (live_only ws))
    ]
  where
    regroup :
        remove_all (before ++ (w ∷ ws)) (stale_indices_from (length before + 1) ws)
        ≡ remove_all
            ((before ++ (w ∷ [])) ++ ws)
            (stale_indices_from (length (before ++ (w ∷ []))) ws)
    regroup =
        ap₂ (λ us n. remove_all us (stale_indices_from n ws))
          (sym (append_assoc before (w ∷ []) ws)) (sym (length-append before (w ∷ [])))

-- Removing the stale indices, the last first, leaves exactly the live waiters, in their order.
pub drop_stale_lem : (ws : List Waiter) → drop_stale ws ≡ live_only ws
unfolding drop_stale stale_waiter_indices
drop_stale_lem ws = remove_stale [] ws

-- An event goes to the first live waiter that it matches, and to no other.
pub hand_to-first :
    (ws : List Waiter) (w : Waiter) (vs : List Waiter) (t : Trb)
    → All (λ v. takes v t ≡ false) ws
    → takes w t ≡ true
    → hand_to (ws ++ (w ∷ vs)) t ≡ ws ++ (resolve w t ∷ vs)
unfolding hand_to
hand_to-first [] w vs t h e = rw e refl
hand_to-first (v ∷ ws) w vs t h e = rw h.0 (ap (λ us. v ∷ us) (hand_to-first ws w vs t h.1 e))

-- An event that no live waiter matches changes no waiter.
pub hand_to-none :
    (ws : List Waiter) (t : Trb) → All (λ v. takes v t ≡ false) ws → hand_to ws t ≡ ws
unfolding hand_to
hand_to-none [] t h = refl
hand_to-none (v ∷ ws) t h = rw h.0 (ap (λ us. v ∷ us) (hand_to-none ws t h.1))

-- What `poll` does with the waiters when `pop` gives an event: the first live waiter that matches
-- has the event added to its queue, and the waiters whose futures are gone leave the list.
pub poll_lem :
    (e e' : EventRing) (t : Trb) (ws : List Waiter) (w : Waiter) (vs : List Waiter)
    → pop e ≡ ok (some t, e')
    → e'.wait_list ≡ ws ++ (w ∷ vs)
    → All (λ v. takes v t ≡ false) ws
    → takes w t ≡ true
    → poll e ≡ ok (record e' { wait_list = live_only (ws ++ (resolve w t ∷ vs)) })
unfolding poll
poll_lem e e' t ws w vs popped waiting before taken =
    rw
      (
        popped,
        waiting,
        hand_to-first ws w vs t before taken,
        drop_stale_lem (ws ++ (resolve w t ∷ vs)),
      )
      refl

-- A future that waits for a command is matched by a completion event for the address that `push`
-- returned, whatever its slot, and its next `poll` gives that event.
pub new_for_command_lem :
    (addr : ℕ) (t : Trb)
    → t.data_ ≡ addr
    → trb_type t ≡ 33
    → (takes (new_for_command addr) t ≡ true)
      × (poll_future (resolve (new_for_command addr) t) ≡ (some t, new_for_command addr))
unfolding new_for_command matches poll_future resolve
new_for_command_lem addr t at ty = (simp (at, ty) (ground arith), refl)

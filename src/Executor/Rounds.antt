-- ===== src/Executor/Rounds.antt =====
-- The executor is a round robin.
use mushix.Prelude.{
  ℕ, zero, suc, ◌+◌, ◌≡◌, ◌∙◌, ap, sym, refl, arith, ◌<◌, List, [], ◌∷◌, ◌++◌, length, some,
}
use mathlib.Core.List.{append_assoc, append-nil}
use mushix.Executor.{Poll, ready, pending, Polled, as_list, run_once, run_turns, block_on}

module _ {ℓ κ} {T : Type ℓ} {W : Type κ} (poll : T → W → Polled T W) where
  -- Polling every task of a list once, in order: the tasks that are queued behind it.
  abbrev pub round : List T → W → List T × W
  round [] w = ([], w)
  round (t ∷ ts) w =
      let p = poll t w in
      let (later, w') = round ts p.world in ((p.spawned ++ as_list p.left) ++ later, w')

  -- As many turns as there are tasks in front poll each of these once, in their order, and none
  -- behind them; the tasks that stay pending, with what they spawned, queue up behind the rest.
  pub run_turns_lem :
      (ts rest : List T) (w : W)
      → run_turns poll (length ts) (ts ++ rest, w) ≡ (rest ++ (round ts w).0, (round ts w).1)
  unfolding run_turns run_once
  run_turns_lem [] rest w = ap (λ q. (q, w)) (sym (append-nil rest))
  run_turns_lem (t ∷ ts) rest w =
      ap (λ q. run_turns poll (length ts) (q, p.world)) queued
      ∙ run_turns_lem ts (rest ++ (p.spawned ++ as_list p.left)) p.world
      ∙ ap (λ q. (q, (round ts p.world).1))
          (append_assoc rest (p.spawned ++ as_list p.left) (round ts p.world).0)
    where
      p : Polled T W
      p = poll t w

      queued :
          ts ++ rest ++ p.spawned ++ as_list p.left ≡ ts ++ (rest ++ (p.spawned ++ as_list p.left))
      queued =
          append_assoc (ts ++ rest) p.spawned (as_list p.left)
          ∙ append_assoc ts rest (p.spawned ++ as_list p.left)

-- A future that is ready at its d-th poll and pending before makes `block_on` return its result,
-- with fuel for one more poll.
pub block_on_lem {ℓ} :
    {A : Type ℓ} (fuel : ℕ) (polls : ℕ → Poll A) (n d : ℕ) (a : A)
    → ((j : ℕ) → j < d → polls (n + j) ≡ pending)
    → polls (n + d) ≡ ready a
    → d < fuel
    → block_on fuel polls n ≡ some a
unfolding block_on
block_on_lem zero polls n d a before at h = absurd (omega (arith, h))
block_on_lem (suc fuel) polls n zero a before at h =
    let here : n + 0 ≡ n = omega arith in rw (sym (ap polls here) ∙ at) refl
block_on_lem (suc fuel) polls n (suc d) a before at h =
    let here : n + 0 ≡ n = omega arith in
    let move : (j : ℕ) → n + suc j ≡ n + 1 + j = λ j. omega arith in
    rw (sym (ap polls here) ∙ before 0 (omega arith)) (
      block_on_lem fuel polls (n + 1) d a
        (λ j lt. ap polls (sym (move j)) ∙ before (suc j) (omega (arith, lt)))
        (ap polls (sym (move d)) ∙ at) (omega (arith, h)))

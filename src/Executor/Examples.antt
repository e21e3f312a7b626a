-- ===== src/Executor/Examples.antt =====
-- Counters as tasks: each poll counts one down, and a task ends at 0.
use mushix.Prelude.{
  ℕ, zero, suc, ◌+◌, ◌≡◌, ◌<◌, ◌++◌, refl, arith, List, [], ◌∷◌, none, some, length,
}
use mushix.Executor.{Poll, ready, pending, Polled, run_turns}
use mushix.Executor.Rounds.{round, run_turns_lem}

-- The world counts the polls, and the task 3 spawns the task 1.
abbrev count_down : ℕ → ℕ → Polled ℕ ℕ
count_down zero w = record { world = w + 1; spawned = []; left = none }
count_down (suc zero) w = record { world = w + 1; spawned = []; left = some 0 }
count_down (suc (suc zero)) w = record { world = w + 1; spawned = []; left = some 1 }
count_down (suc (suc (suc n))) w = record {
  world = w + 1;
  spawned = 1 ∷ [];
  left = some (suc (suc n));
}

abbrev tasks : List ℕ
tasks = 3 ∷ 0 ∷ []

abbrev behind : List ℕ
behind = 2 ∷ []

run_turns_lem_example :
    run_turns count_down (length tasks) (tasks ++ behind, 0)
    ≡ (behind ++ (round count_down tasks 0).0, (round count_down tasks 0).1)
run_turns_lem_example = run_turns_lem count_down tasks behind 0

queue_behind : (behind ++ (round count_down tasks 0).0) ≡ 2 ∷ 1 ∷ 2 ∷ []
queue_behind = refl

abbrev polls : ℕ → Poll ℕ
polls zero = pending
polls (suc n) = ready 7

before : (j : ℕ) → j < 1 → polls (0 + j) ≡ pending
before zero h = refl
before (suc j) h = absurd (omega (arith, h))

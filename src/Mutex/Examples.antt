-- ===== src/Mutex/Examples.antt =====
-- Two threads, and a lock that succeeds at its third try.
use mushix.Prelude.{
  ℕ, zero, suc, ◌≡◌, ◌<◌, ◌≤◌, refl, arith, Bool, true, false, [], ◌∷◌, replicate, ok,
}
use mushix.Mutex.{
  outside, trying, holding, System, step, Reaches, here, next, lock, thread_step, try_lock,
}
use mushix.Mutex.Exclusion.{IsSystem, holders, Reaches-IsSystem, lock_lem}

abbrev one_inside : System
one_inside = record { flag = true; threads = outside ∷ holding ∷ [] }

path : Reaches (record { flag = false; threads = replicate 2 outside }) one_inside
unfolding thread_step try_lock
path = next (next here (step (outside ∷ []) outside [])) (step (outside ∷ []) (trying 0) [])

Reaches-IsSystem_example : IsSystem one_inside × (holders one_inside.threads ≤ 1)
Reaches-IsSystem_example = Reaches-IsSystem 2 one_inside path

abbrev flags : ℕ → Bool
flags zero = true
flags (suc zero) = true
flags (suc (suc n)) = false

busy : (j : ℕ) → j < 2 → flags j ≡ true
busy zero h = refl
busy (suc zero) h = refl
busy (suc (suc j)) h = absurd (omega (arith, h))

lock_lem_example : lock flags ≡ ok 2
lock_lem_example = lock_lem flags 2 busy refl (omega arith)

-- ===== src/Mutex/Exclusion.antt =====
-- Mutual exclusion, and when `lock` succeeds.
use mushix.Prelude.{
  ℕ, zero, suc, ◌+◌, ◌<◌, ◌≤◌, ◌≡◌, ◌∙◌, ap, sym, refl, arith, Bool, true, false, List, [], ◌∷◌,
  ◌++◌, replicate, ltb, if◌then◌else◌, to_bit, ok, panic,
}
use mushix.Mutex.{
  try_lock, lock, lock_from, max_tries, Thread, outside, trying, holding, panicked, thread_step,
  System, Step, step, Reaches, here, next,
}

abbrev pub inside : Thread → ℕ
inside holding = 1
inside outside = 0
inside (trying n) = 0
inside panicked = 0

abbrev pub holders : List Thread → ℕ
holders [] = 0
holders (t ∷ ts) = inside t + holders ts

holders-append : (xs ys : List Thread) → holders (xs ++ ys) ≡ holders xs + holders ys
holders-append [] ys = omega arith
holders-append (x ∷ xs) ys = omega (arith, holders-append xs ys)

-- The flag says whether a thread is inside.
abbrev pub IsSystem : System → Type 0
IsSystem s = holders s.threads ≡ to_bit s.flag

-- A step changes the flag as it changes the thread, when no thread is inside a free mutex.
thread_step_lem :
    (flag : Bool) (t : Thread) (others : ℕ)
    → inside t + others ≡ to_bit flag
    → inside (thread_step flag t).1 + others ≡ to_bit (thread_step flag t).0
unfolding thread_step try_lock
thread_step_lem flag outside others h = h
thread_step_lem true (trying n) others h = by_tries (ltb (n + 1) max_tries)
  where
    by_tries : (b : Bool) → inside (if b then trying (n + 1) else panicked) + others ≡ 1
    by_tries true = h
    by_tries false = h
thread_step_lem false (trying n) others h = omega (arith, h)
thread_step_lem true holding others h = omega (arith, h)
thread_step_lem false holding others h = absurd (omega (arith, h))
thread_step_lem flag panicked others h = h

Step-IsSystem : {s t : System} → Step s t → IsSystem s → IsSystem t
Step-IsSystem (step {flag} before t after) h = omega (
  arith,
  holders-append before ((thread_step flag t).1 ∷ after),
  thread_step_lem flag t (holders before + holders after)
      (omega (arith, holders-append before (t ∷ after), h)),
)

-- However many threads compete for a mutex that starts free, and in whatever order they step, at
-- most one is inside, and the flag is set exactly while one is.
pub Reaches-IsSystem :
    (n : ℕ) (s : System)
    → Reaches (record { flag = false; threads = replicate n outside }) s
    → IsSystem s × (holders s.threads ≤ 1)
Reaches-IsSystem n s path = (good path, at_most s (good path))
  where
    none_inside : (n : ℕ) → holders (replicate n outside) ≡ 0
    none_inside zero = refl
    none_inside (suc n) = omega (arith, none_inside n)

    good :
        {s : System}
        → Reaches (record { flag = false; threads = replicate n outside }) s
        → IsSystem s
    good here = none_inside n
    good (next path p) = Step-IsSystem p (good path)

    at_most : (s : System) → IsSystem s → holders s.threads ≤ 1
    at_most s h = ground (arith, h)

lock_from_lem :
    (tries : ℕ) (flags : ℕ → Bool) (n d : ℕ)
    → ((j : ℕ) → j < d → flags (n + j) ≡ true)
    → flags (n + d) ≡ false
    → d < tries
    → lock_from tries flags n ≡ ok (n + d)
unfolding lock_from try_lock
lock_from_lem zero flags n d busy free h = absurd (omega (arith, h))
lock_from_lem (suc tries) flags n zero busy free h =
    let at : n + 0 ≡ n = omega arith in rw (sym (ap flags at) ∙ free) (ap ok (sym at))
lock_from_lem (suc tries) flags n (suc d) busy free h =
    let at : n + 0 ≡ n = omega arith in
    let move : (j : ℕ) → n + suc j ≡ n + 1 + j = λ j. omega arith in
    rw (sym (ap flags at) ∙ busy 0 (omega arith)) (
      lock_from_lem tries flags (n + 1) d
        (λ j lt. ap flags (sym (move j)) ∙ busy (suc j) (omega (arith, lt)))
        (ap flags (sym (move d)) ∙ free) (omega (arith, h))
      ∙ ap ok (sym (move d)))

-- `lock` takes the mutex at the first of its ten thousand tries that finds it free.
pub lock_lem :
    (flags : ℕ → Bool) (d : ℕ)
    → ((j : ℕ) → j < d → flags j ≡ true)
    → flags d ≡ false
    → d < 10000
    → lock flags ≡ ok d
unfolding lock
lock_lem flags d busy free h =
    lock_from_lem 10000 flags 0 d (λ j lt. ap flags (add_zero j) ∙ busy j lt)
      (ap flags (add_zero d) ∙ free) h
    ∙ ap ok (add_zero d)
  where
    add_zero : (j : ℕ) → 0 + j ≡ j
    add_zero j = omega arith

lock_from-panic :
    (tries : ℕ) (flags : ℕ → Bool) (n : ℕ)
    → ((j : ℕ) → flags j ≡ true)
    → lock_from tries flags n ≡ panic "Failed to lock mutecx"
unfolding lock_from try_lock
lock_from-panic zero flags n busy = refl
lock_from-panic (suc tries) flags n busy = rw (busy n) (lock_from-panic tries flags (n + 1) busy)

-- A thread that locks a mutex which stays taken, as when it holds the guard itself, panics.
pub lock-panic :
    (flags : ℕ → Bool) → ((j : ℕ) → flags j ≡ true) → lock flags ≡ panic "Failed to lock mutecx"
unfolding lock
lock-panic flags busy = lock_from-panic 10000 flags 0 busy

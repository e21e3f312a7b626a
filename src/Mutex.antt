-- ===== src/Mutex.antt =====
-- `Mutex` of src/mutex.rs: the flag, the guard, and the threads that compete for it.
pub mod Exclusion
mod Examples
use mushix.Prelude.{
  ℕ, zero, suc, ◌+◌, ◌≡◌, Bool, true, false, List, ◌∷◌, ◌++◌, ltb, if◌then◌else◌, Result, ok, panic,
  ◌>>=◌,
}

pub record Mutex {ℓ} (A : Type ℓ) : Type ℓ where
  pub data_ : A
  pub is_taken : Bool

abbrev pub new {ℓ} : {A : Type ℓ} → A → Mutex A
new a = record { data_ = a; is_taken = false }

-- `try_lock`: whether the exchange took the flag, and the flag behind it.
pub try_lock : Bool → Bool × Bool
try_lock true = (false, true)
try_lock false = (true, true)

abbrev pub max_tries : ℕ
max_tries = 10000

-- `lock`, where `flags n` is the flag that the n-th try finds: the number of the try that took it.
pub lock_from : (tries : ℕ) → (ℕ → Bool) → ℕ → Result ℕ
lock_from zero flags n = panic "Failed to lock mutecx"
lock_from (suc tries) flags n =
    let rest = lock_from tries flags (n + 1) in if (try_lock (flags n)).0 then ok n else rest

pub lock : (ℕ → Bool) → Result ℕ
lock flags = lock_from max_tries flags 0

-- `under_locked` when the first try succeeds; the guard is dropped behind the call.
pub under_locked {ℓ κ} :
    {A : Type ℓ} {B : Type κ} → Mutex A → (A → Result (B × A)) → Result (B × Mutex A)
under_locked m f =
    if (try_lock m.is_taken).0
    then (f m.data_ >>= λ (b, a). ok (b, record { data_ = a; is_taken = false }))
    else panic "Failed to lock mutecx"

-- A thread outside, between two tries, inside, or stopped by the panic.
pub data Thread : Type 0 where
  outside : Thread
  trying : ℕ → Thread
  holding : Thread
  panicked : Thread

-- The next try, behind `n` that failed, on the flag that it finds.
abbrev after_try : ℕ → Bool × Bool → Bool × Thread
after_try n (true, flag) = (flag, holding)
after_try n (false, flag) = (flag, if ltb (n + 1) max_tries then trying (n + 1) else panicked)

-- What one thread may do, with the flag before and behind it.
pub thread_step : Bool → Thread → Bool × Thread
thread_step flag outside = (flag, trying 0)
thread_step flag (trying n) = after_try n (try_lock flag)
thread_step flag holding = (false, outside)
thread_step flag panicked = (flag, panicked)

pub record System : Type 0 where
  pub flag : Bool
  pub threads : List Thread

-- One thread of the system steps, and the steps may come in any order.
pub data Step : System → System → Type 0 where
  step :
      {flag : Bool} (before : List Thread) (t : Thread) (after : List Thread)
      → Step
          (record { flag = flag; threads = before ++ (t ∷ after) })
          (record {
            flag = (thread_step flag t).0;
            threads = before ++ ((thread_step flag t).1 ∷ after);
          })

pub data Reaches (s : System) : System → Type 0 where
  here : Reaches s s
  next : {t u : System} → Reaches s t → Step t u → Reaches s u

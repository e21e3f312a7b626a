-- ===== src/Executor.antt =====
-- `Executor` of src/executor.rs: the queue of tasks, one turn of its loop, and the futures it drives.
pub mod Rounds
mod Examples
use mushix.Prelude.{
  ℕ, zero, suc, ◌+◌, ◌*◌, ◌/◌, ◌^◌, Bool, true, false, List, [], ◌∷◌, ◌++◌, Option, none, some, ltb,
  if◌then◌else◌,
}
use mushix.Word.{u64}

pub data Poll {ℓ} (A : Type ℓ) : Type ℓ where
  ready : A → Poll A
  pending : Poll A

-- What polling a task comes to: the world behind it, the tasks that it spawned through
-- `spawn_global`, and the task itself when it is pending.
pub record Polled {ℓ κ} (T : Type ℓ) (W : Type κ) : Type (ℓ ⊔ κ) where
  pub world : W
  pub spawned : List T
  pub left : Option T

abbrev pub as_list {ℓ} : {T : Type ℓ} → Option T → List T
as_list none = []
as_list (some t) = t ∷ []

-- `enqueue`
abbrev pub enqueue {ℓ} : {T : Type ℓ} → List T → T → List T
enqueue queue t = queue ++ (t ∷ [])

module _ {ℓ κ} {T : Type ℓ} {W : Type κ} (poll : T → W → Polled T W) where
  -- One turn of the loop of `Executor::run`.
  pub run_once : List T × W → List T × W
  run_once ([], w) = ([], w)
  run_once (t ∷ queue, w) = let p = poll t w in (queue ++ p.spawned ++ as_list p.left, p.world)

  pub run_turns : ℕ → List T × W → List T × W
  run_turns zero s = s
  run_turns (suc n) s = run_turns n (run_once s)

abbrev pub on_poll {ℓ} : {A : Type ℓ} → Poll A → Option A → Option A
on_poll (ready a) rest = some a
on_poll pending rest = rest

-- `block_on`, where `polls n` is the answer of the n-th poll: the result, within the fuel.
pub block_on {ℓ} : {A : Type ℓ} → (fuel : ℕ) → (ℕ → Poll A) → ℕ → Option A
block_on zero polls n = none
block_on (suc fuel) polls n = let rest = block_on fuel polls (n + 1) in on_poll (polls n) rest

-- `Yield::poll`: the flag before and behind.
pub yield_poll : Bool → Poll (Unit {0}) × Bool
yield_poll true = (ready tt, true)
yield_poll false = (pending, true)

-- `TimeoutFuture`, its times in nanoseconds.
pub timeout_new : (now duration : ℕ) → ℕ
timeout_new now duration = now + duration

pub timeout_poll : (time_out now : ℕ) → Poll (Unit {0})
timeout_poll time_out now = if ltb time_out now then ready tt else pending

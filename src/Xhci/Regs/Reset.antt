-- ===== src/Xhci/Regs/Reset.antt =====
-- `reset_xhc` of src/xhci.rs against a controller that obeys the command register.
use mushix.Prelude.{ℕ, ◌/◌, ◌%◌, ◌≤◌, ◌≡◌}

-- A controller: once its run bit is clear, it is halted from the read with number `a` on, and once
-- the reset bit is set on a stopped controller, bit 1 of its status is clear from the read with
-- number `b` on. Nothing is said of a controller that is told to run.
pub record Obeys (reads : ℕ → ℕ → ℕ) (a b : ℕ) : Type 0 where
  pub halts : (usbcmd n : ℕ) → usbcmd % 2 ≡ 0 → a ≤ n → reads usbcmd n % 2 ≡ 1
  pub ready : (usbcmd n : ℕ) → usbcmd % 4 ≡ 2 → b ≤ n → reads usbcmd n / 2 % 2 ≡ 0

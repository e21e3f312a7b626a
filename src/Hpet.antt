-- ===== src/Hpet.antt =====
-- src/hpet.rs: the timer's registers and the time since start.
pub mod Start
mod Examples
use mushix.Prelude.{
  ℕ, zero, suc, ◌+◌, ◌*◌, ◌/◌, ◌^◌, bit_and, bit_or, List, [], ◌∷◌, Option, none, some, ◌==◌,
  if◌then◌else◌, Result, ok, panic,
}
use mushix.Word.{shr, bit_not, u64}

pub record HpetRegisters : Type 0 where
  pub capabilities_and_id : ℕ
  pub configuration : ℕ
  pub main_counter_value : ℕ
  pub timers : List ℕ

pub record Hpet : Type 0 where
  pub registers : HpetRegisters
  pub num_of_timers : ℕ
  pub freq : ℕ

abbrev timer_bits : ℕ
timer_bits = bit_or (bit_or (bit_or (2 ^ 2) (2 ^ 3)) (2 ^ 1)) (31 * 2 ^ 9)

pub clear_config : ℕ → ℕ
clear_config config = bit_and config (bit_not 64 timer_bits)

-- The loop over the first `n` timers.
abbrev pub clear_timers : ℕ → List ℕ → List ℕ
clear_timers zero timers = timers
clear_timers (suc n) [] = []
clear_timers (suc n) (t ∷ timers) = clear_config t ∷ clear_timers n timers

-- Neither write of `globally_disable` and `globally_enable` touches the other bits.
pub globally_disable : HpetRegisters → HpetRegisters
globally_disable r = record r { configuration = bit_and r.configuration (bit_not 64 1) }

pub globally_enable : HpetRegisters → HpetRegisters
globally_enable r = record r { configuration = bit_or r.configuration 1 }

abbrev pub timer_count : HpetRegisters → ℕ
timer_count r = bit_and (shr 64 r.capabilities_and_id 8) 31 + 1

-- The division panics for a period of 0, and there are 32 timer registers.
pub new : HpetRegisters → Result Hpet
new r =
    let fs_per_count = shr 64 r.capabilities_and_id 32 in
    let num_of_timers = timer_count r in
    let disabled = globally_disable r in
    if fs_per_count == 0
    then panic "attempt to divide by zero"
    else ok (record {
      registers = globally_enable (record disabled {
        timers = clear_timers num_of_timers disabled.timers;
        main_counter_value = 0;
      });
      num_of_timers = num_of_timers;
      freq = 1000000000000000 / fs_per_count;
    })

-- `global_timestamp`, in nanoseconds; the division panics for a frequency of 0.
pub global_timestamp : Option Hpet → Result ℕ
global_timestamp none = ok 0
global_timestamp (some h) =
    if h.freq == 0
    then panic "attempt to divide by zero"
    else ok (u64 (h.registers.main_counter_value * 1000000000 / h.freq))

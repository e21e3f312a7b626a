-- ===== src/Hpet/Start.antt =====
-- What `Hpet::new` makes of the timer's registers.
use mushix.Prelude.{
  ℕ, zero, suc, ◌+◌, ◌-◌, ◌*◌, ◌/◌, ◌%◌, ◌^◌, ◌<◌, ◌≡◌, ◌≢◌, ◌∙◌, ap, refl, arith, bit_and, bit_or,
  false, ◌==◌, List, [], ◌∷◌, take, drop, subst, All, ok,
}
use mushix.Word.{shr, bit_not}
use mushix.Word.Split.{bit_and-split, bit_and-zero, bit_and-ones, bit_or-split}
use mushix.Word.Fields.{field, bit_and_mask}
use mushix.Word.Shift.{shr_lem}
use mushix.Hpet.{
  Hpet, HpetRegisters, new, clear_config, clear_timers, timer_count, globally_disable,
  globally_enable,
}

-- A timer that raises no interrupt: level trigger, enable and periodic mode, and the route, are 0.
abbrev pub IsQuiet : ℕ → Type 0
IsQuiet t = (field 1 3 t ≡ 0) × (field 9 5 t ≡ 0)

clear_config_lem :
    (x : ℕ) → x < 2 ^ 64 → clear_config x ≡ x / 2 ^ 14 * 2 ^ 14 + x % 2 ^ 9 / 2 ^ 4 * 2 ^ 4 + x % 2
unfolding clear_config
clear_config_lem x h = above ∙ ap (λ low. x / 2 ^ 14 * 2 ^ 14 + low) (middle ∙ below) ∙ omega arith
  where
    above : bit_and x 0xffffffffffffc1f1 ≡ x / 2 ^ 14 * 2 ^ 14 + bit_and (x % 2 ^ 14) 0x1f1
    above = ground (
      arith,
      bit_and-split 14 (x / 2 ^ 14) (x % 2 ^ 14) (2 ^ 50 - 1) 0x1f1,
      bit_and-ones 50 (x / 2 ^ 14),
    )

    middle : bit_and (x % 2 ^ 14) 0x1f1 ≡ bit_and (x % 2 ^ 9) 0x1f1
    middle = ground (
      arith,
      bit_and-split 9 (x % 2 ^ 14 / 2 ^ 9) (x % 2 ^ 9) 0 0x1f1,
      bit_and-zero (x % 2 ^ 14 / 2 ^ 9),
    )

    below : bit_and (x % 2 ^ 9) 0x1f1 ≡ x % 2 ^ 9 / 2 ^ 4 * 2 ^ 4 + x % 2
    below = ground (
      arith,
      bit_and-split 4 (x % 2 ^ 9 / 2 ^ 4) (x % 2 ^ 4) 31 1,
      bit_and-ones 5 (x % 2 ^ 9 / 2 ^ 4),
      bit_and_mask 1 (x % 2 ^ 4),
    )

clear_config-IsQuiet : (x : ℕ) → x < 2 ^ 64 → IsQuiet (clear_config x)
clear_config-IsQuiet x h = rw (clear_config_lem x h) (omega arith, omega arith)

-- The timers behind the first `n` are left as they are.
clear_timers-drop : (n : ℕ) (timers : List ℕ) → drop n (clear_timers n timers) ≡ drop n timers
clear_timers-drop zero timers = refl
clear_timers-drop (suc n) [] = refl
clear_timers-drop (suc n) (t ∷ timers) = clear_timers-drop n timers

-- The number of the last timer stands in bits 8 to 12 of the capabilities.
timer_count_lem : (r : HpetRegisters) → timer_count r ≡ r.capabilities_and_id / 2 ^ 8 % 2 ^ 5 + 1
timer_count_lem r =
    ap (λ n. n + 1)
      (ap (λ x. bit_and x 31) (shr_lem 64 r.capabilities_and_id 8 (omega arith))
        ∙ bit_and_mask 5 (r.capabilities_and_id / 2 ^ 8))

clear_timers-IsQuiet :
    (n : ℕ) (timers : List ℕ)
    → All (λ t. t < 2 ^ 64) timers
    → All IsQuiet (take n (clear_timers n timers))
clear_timers-IsQuiet zero timers v = tt
clear_timers-IsQuiet (suc n) [] v = tt
clear_timers-IsQuiet (suc n) (t ∷ timers) v =
    (clear_config-IsQuiet t v.0, clear_timers-IsQuiet n timers v.1)

-- The counter's enable bit, set behind everything else.
enabled : (x : ℕ) → bit_or x 1 % 2 ≡ 1
enabled x = ground (arith, bit_or-split 1 (x / 2) (x % 2) 0 1, last (x % 2))
  where
    last : (b : ℕ) → b < 2 → bit_or b 1 ≡ 1
    last zero h = refl
    last (suc zero) h = refl
    last (suc (suc b)) h = absurd (omega (arith, h))

abbrev started : HpetRegisters → Hpet
started r =
    let disabled = globally_disable r in
    record {
      registers = globally_enable (record disabled {
        timers = clear_timers (timer_count r) disabled.timers;
        main_counter_value = 0;
      });
      num_of_timers = timer_count r;
      freq = 1000000000000000 / shr 64 r.capabilities_and_id 32;
    }

-- For 64-bit registers with a period other than 0, the timer starts: the frequency is 10 ^ 15 by the
-- period, the counter is 0 and enabled, there is one timer more than the number in bits 8 to 12 of
-- the capabilities, each of these raises no interrupt, and the registers behind them are left as
-- they were.
pub new-IsQuiet :
    (r : HpetRegisters)
    → All (λ t. t < 2 ^ 64) r.timers
    → shr 64 r.capabilities_and_id 32 ≢ 0
    → (h : Hpet) × (new r ≡ ok h)
      × (h.freq ≡ 1000000000000000 / shr 64 r.capabilities_and_id 32)
      × (h.registers.main_counter_value ≡ 0)
      × (h.registers.configuration % 2 ≡ 1)
      × (h.num_of_timers ≡ r.capabilities_and_id / 2 ^ 8 % 2 ^ 5 + 1)
      × All IsQuiet (take (r.capabilities_and_id / 2 ^ 8 % 2 ^ 5 + 1) h.registers.timers)
      × (drop (r.capabilities_and_id / 2 ^ 8 % 2 ^ 5 + 1) h.registers.timers
          ≡ drop (r.capabilities_and_id / 2 ^ 8 % 2 ^ 5 + 1) r.timers)
unfolding new globally_disable globally_enable
new-IsQuiet r v ne = (
  started r,
  rw nonzero refl,
  refl,
  refl,
  enabled (bit_and r.configuration (bit_not 64 1)),
  timer_count_lem r,
  subst (λ n. All IsQuiet (take n (clear_timers (timer_count r) r.timers))) (timer_count_lem r)
      (clear_timers-IsQuiet (timer_count r) r.timers v),
  subst (λ n. drop n (clear_timers (timer_count r) r.timers) ≡ drop n r.timers) (timer_count_lem r)
      (clear_timers-drop (timer_count r) r.timers),
)
  where
    nonzero : (shr 64 r.capabilities_and_id 32 == 0) ≡ false
    nonzero = ground (arith, ne)

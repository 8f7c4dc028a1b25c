-- ===== src/Ramp/Pwm.antt =====
-- The duty cycle of `pwmTask` of src/vf610/pwmtest.c.
use testsystem.Prelude.{
  ℕ, ◌+◌, ◌%◌, ◌≤◌, ◌≡◌, true, false, arith, Bool-cases, inl, inr, if◌then◌else◌,
}
use testsystem.Ramp.{Ramp, pwm_round, rounds, rounds-Inv}

-- The duty cycle is a multiple of 500 within 0 and 20000, with room for the next step.
pub record Inv (s : Ramp) : Type 0 where
  pub whole : s.n % 500 ≡ 0
  pub room_up : s.up ≡ true → s.n ≤ 19500
  pub room_down : s.up ≡ false → (500 ≤ s.n) × (s.n ≤ 20000)

pub pwm_round-Inv : (s : Ramp) → Inv s → Inv (pwm_round s)
unfolding pwm_round
pwm_round-Inv s h = ground arith

pub in_range : (s : Ramp) → Inv s → s.n ≤ 20000
in_range s h = elim (Bool-cases s.up) [
  | inl e ↦ omega (arith, h.room_up e)
  | inr e ↦ omega (arith, h.room_down e)
]

one_step : (s : Ramp) → Inv s → (pwm_round s).n ≡ (if s.up then s.n + 500 else (pwm_round s).n)
unfolding pwm_round
one_step s h = ground arith

step_down : (s : Ramp) → Inv s → s.up ≡ false → (pwm_round s).n + 500 ≡ s.n
unfolding pwm_round
step_down s h e = ground arith

-- Started with any duty cycle that is a multiple of 500 up to 19500, as `pwmtest_init` starts it
-- with 10000, every round of `pwmTask` moves it by exactly 500 in the direction of `up`, and it stays
-- within 0 and 20000.
pub pwm_task-range :
    (k n : ℕ)
    → n % 500 ≡ 0
    → n ≤ 19500
    → let s = rounds pwm_round k (record { up = true; n = n }) in
      (s.n ≤ 20000)
      × (s.up ≡ true → (pwm_round s).n ≡ s.n + 500)
      × (s.up ≡ false → (pwm_round s).n + 500 ≡ s.n)
pwm_task-range k n w l =
    let s = rounds pwm_round k (record { up = true; n = n }) in
    let inv =
      rounds-Inv Inv pwm_round pwm_round-Inv k (record { up = true; n = n }) (ground arith) in
    (in_range s inv, λ e. ground (arith, one_step s inv), step_down s inv)

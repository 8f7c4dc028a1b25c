-- ===== src/Pwmtest.antt =====
-- The PWM test of src/vf610/pwmtest.c: `pwmTask`, one access to a shared variable or one call at a
-- time, and `captureIRQ`, which interrupts it anywhere. `crit` keeps the interrupt from comparing
-- while the outputs change. `duty_0` to `duty_2` are the duty cycles that the outputs have, `before`
-- the duty cycle before the last change, which no code reads.
pub mod Interleaving
pub mod Edges
mod Tests
use testsystem.Prelude.{
  ℕ, suc, ◌+◌, ◌-◌, ◌%◌, ◌≡◌, Bool, true, false, not, ◌&&◌, ◌||◌, Option, none, some, ltb, leb,
  ◌==◌, if◌then◌else◌,
}
use testsystem.Prelude.Int.{ℤ}
use testsystem.Prelude.Task.{is_zero}
use testsystem.Ramp.{Ramp, u64_mod, i32_mod, is_negative_i32, pwm_round}

-- Where `pwmTask` stands: in its delay, behind `crit = true`, behind the `if`, behind each call, or
-- at a failed assertion.
pub data Pc : Type 0 where
  delayed entered adjusted set_0 set_1 set_2 stopped : Pc

pub record State : Type 0 where
  pub pc : Pc
  pub crit : Bool
  pub ramp : Ramp  -- `up` and `n`
  pub us : ℕ  -- uint64_t
  pub us_old : ℕ  -- uint64_t
  pub i : ℕ
  pub start : Bool
  pub duty_0 : ℕ
  pub duty_1 : ℕ
  pub duty_2 : ℕ
  pub before : ℕ

-- As `pwmtest_init` leaves the variables and the outputs.
abbrev pub initial : State
initial = record {
  pc = delayed;
  crit = false;
  ramp = record { up = true; n = 10000 };
  us = 0;
  us_old = 0;
  i = 0;
  start = true;
  duty_0 = 10000;
  duty_1 = 10000;
  duty_2 = 10000;
  before = 10000;
}

-- A step of `pwmTask`; `ret` is what a call of `pwm_setDutyCycle` returns.
unfoldable pub step_at : Pc → ℤ → State → State
step_at delayed ret s = record s { pc = entered; crit = true }
step_at entered ret s = record s { pc = adjusted; ramp = pwm_round s.ramp; before = s.ramp.n }
step_at adjusted ret s =
    if is_zero ret then record s { pc = set_0; duty_0 = s.ramp.n } else record s { pc = stopped }
step_at set_0 ret s =
    if is_zero ret then record s { pc = set_1; duty_1 = s.ramp.n } else record s { pc = stopped }
step_at set_1 ret s =
    if is_zero ret then record s { pc = set_2; duty_2 = s.ramp.n } else record s { pc = stopped }
step_at set_2 ret s = record s { pc = delayed; crit = false }
step_at stopped ret s = record s { pc = stopped }

unfoldable pub pwm_task : ℤ → State → State
unfolding step_at
pwm_task ret s = step_at s.pc ret s

abbrev pub max_diff : ℕ
max_diff = 510

-- `(uint64_t) n` for an `int` by its bit pattern, and `n > c` for a constant of 0 or more.
abbrev pub to_u64 : ℕ → ℕ
to_u64 n = if is_negative_i32 n then n + (u64_mod - i32_mod) else n

abbrev pub gt_i32 : ℕ → ℕ → Bool
gt_i32 n c = if is_negative_i32 n then false else ltb c n

abbrev pub lt_i32 : ℕ → ℕ → Bool
lt_i32 n c = if is_negative_i32 n then true else ltb n c

-- The condition of `captureIRQ`, for the capture at `time`.
unfoldable pub compares : ℕ → State → Bool
compares time s =
    not s.start
    && (not s.crit
        && (not (s.us == 0)
            && (not (time == 0)
                && (ltb s.us time && (gt_i32 s.ramp.n 1000 && lt_i32 s.ramp.n 19000)))))

-- `width` lies within MAX_DIFF of the duty cycle; `n - MAX_DIFF` and `n + MAX_DIFF` are `int`.
abbrev pub in_window : ℕ → ℕ → Bool
in_window width n =
    leb (to_u64 ((n + i32_mod - max_diff) % i32_mod)) width
    && leb width (to_u64 ((n + max_diff) % i32_mod))

-- The assertion, for the difference of two captures.
unfoldable pub fits : ℕ → ℕ → Bool
fits diff n = in_window diff n || in_window ((20000 + u64_mod - diff) % u64_mod) n

-- `captureIRQ` at a capture with this time. `none` is a failed assertion.
unfoldable pub capture_irq : ℕ → State → Option State
unfolding compares fits
capture_irq time s =
    let s' = record s { us_old = s.us; us = time } in
    if compares time s
    then if fits (time - s.us) s.ramp.n then some s' else none
    else if s.start
    then some (record s' { i = s.i + 1; start = if ltb 20 (s.i + 1) then false else true })
    else some s'

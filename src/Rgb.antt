-- ===== src/Rgb.antt =====
-- The coloured light of src/s32k/timer.c and src/kv4x/timer.c: `irqhandle` with the pins driven by
-- hand and with PWM. `float` and its operations are a parameter, and so are the statuses of the timer
-- and PWM calls. A failed assertion is `none`. The pins are the levels that the pin calls leave.
pub mod Dark
pub mod Periods
pub mod Cycle
pub mod Colours
pub mod Pwm
mod Tests
use mathlib.Core.Option
use testsystem.Prelude.{
  ℕ, zero, suc, ◌+◌, ◌-◌, ◌%◌, Bool, true, false, not, ◌&&◌, Option, none, some, ltb, leb, ◌==◌,
  if◌then◌else◌, add32, sub32,
}
use testsystem.Prelude.Bits.{bit}
use testsystem.Prelude.Int.{ℤ, pos, negsuc}

-- What the file uses of `float`.
pub record Float : Type 1 where
  pub F : Type 0
  pub one : F  -- 1.0
  pub zero_f : F  -- 0.0
  pub start : F  -- MAX_TIME / 2
  pub plus : F → F  -- n += 0.05
  pub minus : F → F  -- n -= 0.05
  pub ge_one : F → Bool  -- n >= 1.0
  pub le_zero : F → Bool  -- n <= 0
  pub on_time : F → ℕ  -- MAX_TIME - (n * MAX_TIME), converted to uint32_t
  pub duty : F → ℕ  -- the same with n * 0.3, and with adc_val if that is read

abbrev pub max_time : ℕ
max_time = 21000

-- The levels of the three pins.
pub record Levels : Type 0 where
  pub pin_0 : Bool
  pub pin_1 : Bool
  pub pin_2 : Bool

-- The globals, and the pins.
pub record Rgb (F : Type 0) : Type 0 where
  pub rgb_pins : ℕ  -- uint32_t
  pub state : ℕ  -- uint32_t
  pub n : F
  pub up : Bool
  pub on : Bool
  pub levels : Levels

-- The pins whose bits are set take the level; the others stay.
unfoldable pub drive : Bool → ℕ → Levels → Levels
drive level pins l = record {
  pin_0 = if bit 0 pins then level else l.pin_0;
  pin_1 = if bit 1 pins then level else l.pin_1;
  pin_2 = if bit 2 pins then level else l.pin_2;
}

-- The `switch`, with the pins before it.
unfoldable pub colour : ℕ → ℕ → ℕ
colour state pins =
    if state == 0
    then 1
    else if state == 1
    then 2
    else if state == 2
    then 4
    else if state == 3
    then 3
    else if state == 4
    then 6
    else if state == 5
    then 5
    else if state == 6
    then 7
    else pins

-- On the KV4x, neither time is 0.
unfoldable pub kv4x_adjust : ℕ → ℕ
kv4x_adjust m = let m' = if m == 0 then 100 else m in if m' == max_time then max_time - 100 else m'

abbrev pub s32k_adjust : ℕ → ℕ
s32k_adjust m = m

-- What `CONFIG_ASSERT` demands of a status.
abbrev pub is_zero : ℤ → Bool
is_zero (pos zero) = true
is_zero (pos (suc n)) = false
is_zero (negsuc n) = false

module _ (f : Float) where
  open f use {F, one, zero_f, start, plus, minus, ge_one, le_zero, on_time, duty}

  -- The value as `timertest_init` leaves the program: all pins set.
  unfoldable pub initial : Rgb F
  initial = record {
    rgb_pins = 1;
    state = 0;
    n = start;
    up = true;
    on = true;
    levels = record { pin_0 = true; pin_1 = true; pin_2 = true };
  }

  -- The value has come down to 0.
  unfoldable pub next_colour : Rgb F → Rgb F
  unfolding colour
  next_colour s =
      let i = if s.state == 7 then 0 else s.state in
      record s { n = zero_f; up = true; rgb_pins = colour i s.rgb_pins; state = add32 i 1 }

  -- The new value `n1`, held within 0 and 1.
  unfoldable pub hold : F → Rgb F → Rgb F
  hold n1 s =
      if ge_one n1
      then record s { n = one; up = false }
      else if le_zero n1
      then next_colour s
      else record s { n = n1 }

  -- `if (on) { … }` behind the pins.
  unfoldable pub advance : Rgb F → Rgb F
  advance s = if s.on then hold (if s.up then plus s.n else minus s.n) s else s

  -- The time that the timer is asked for.
  unfoldable pub request : (ℕ → ℕ) → Rgb F → ℕ
  request adjust s = let m = adjust (on_time s.n) in if s.on then m else sub32 max_time m

  -- Up to the call of the timer.
  unfoldable pub shown : Rgb F → Rgb F
  shown s = advance (record s { levels = drive s.on s.rgb_pins s.levels })

  -- `irqhandle` without PWM, by `timer_oneshot` or `timer_periodic`.
  unfoldable pub irqhandle : (ℕ → ℕ) → (ℕ → ℤ) → Rgb F → Option (Rgb F)
  irqhandle adjust timer s =
      let s' = shown s in
      if is_zero (timer (request adjust s')) then some (record s' { on = not s'.on }) else none

  -- The duty cycles of the three outputs with PWM.
  unfoldable pub duties : Rgb F → ℕ × ℕ × ℕ
  duties s =
      let m = duty s.n in
      (
        if bit 0 s.rgb_pins then m else max_time,
        if bit 1 s.rgb_pins then m else max_time,
        if bit 2 s.rgb_pins then m else max_time,
      )

  -- `irqhandle` with PWM: the duty cycles and the new state, by the status of each call.
  unfoldable pub pwm_irqhandle : (ℕ → ℕ → ℤ) → Rgb F → Option ((ℕ × ℕ × ℕ) × Rgb F)
  pwm_irqhandle set_duty_cycle s =
      let s' = advance s in
      let (d0, d1, d2) = duties s' in
      if is_zero (set_duty_cycle 0 d0)
        && is_zero (set_duty_cycle 1 d1)
        && is_zero (set_duty_cycle 2 d2)
      then some ((d0, d1, d2), s')
      else none

  abbrev pub then_run : Option (Rgb F) → (Rgb F → Option (Rgb F)) → Option (Rgb F)
  then_run none k = none
  then_run (some s) k = k s

  -- The handlers of the two boards.
  abbrev pub kv4x_irqhandle : (ℕ → ℤ) → Rgb F → Option (Rgb F)
  kv4x_irqhandle = irqhandle kv4x_adjust

  abbrev pub s32k_irqhandle : (ℕ → ℤ) → Rgb F → Option (Rgb F)
  s32k_irqhandle = irqhandle s32k_adjust

  -- A number of interrupts.
  unfoldable pub interrupts : (Rgb F → Option (Rgb F)) → ℕ → Rgb F → Option (Rgb F)
  interrupts handler zero s = some s
  interrupts handler (suc k) s = then_run (handler s) (interrupts handler k)

  -- A number of interrupts with PWM.
  unfoldable pub pwm_interrupts : (ℕ → ℕ → ℤ) → ℕ → Rgb F → Option (Rgb F)
  pwm_interrupts set_duty_cycle zero s = some s
  pwm_interrupts set_duty_cycle (suc k) s =
      then_run (Option.map (λ r. r.1) (pwm_irqhandle set_duty_cycle s))
        (pwm_interrupts set_duty_cycle k)

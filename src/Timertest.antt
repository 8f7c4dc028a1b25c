-- ===== src/Timertest.antt =====
-- The start of the timer tests of src/stm32/timertest.c and src/am57xx/timertest.c: `timertest_init`
-- with its three switches of the configuration, and the callback for an overflow.
-- What a call of the HAL answers depends on the call and is a parameter; a pointer is a number, 0 for
-- NULL. The calls are recorded with the last one first. The numbers of devices and pins come from
-- outside the sources and are names.
pub mod Callbacks
pub mod Boards
mod Tests
use testsystem.Prelude.{
  ℕ, Bool, true, false, not, ◌||◌, Option, none, some, List, [], ◌∷◌, ◌==◌, if◌then◌else◌,
}
use testsystem.Prelude.Int.{ℤ, pos, negsuc, is_negative}
use testsystem.Prelude.Calls.{Answers, get, get_checked, call}
use testsystem.Prelude.Task.{Outcome, done, asserted, Task, ◌>>=◌, ◌>>◌, pure, assert, and_then}

-- The first device of a kind in `timertest_init`, or the second.
pub data Device : Type 0 where
  first second : Device

-- The calls with their arguments, pointers included.
pub data Call : Type 0 where
  gpio_init : Call
  output_pin_init input_pin_init : ℕ → Call
  pin_set_callback : ℕ → ℕ → Call
  pin_enable_interrupt : ℕ → Call
  timer_init : Device → ℕ → Call
  timer_periodic : ℕ → ℕ → Call
  timer_set_overflow_callback : ℕ → ℕ → Call
  pwm_init : Device → Call
  pwm_set_period pwm_set_duty_cycle : ℕ → ℕ → Call
  capture_init : Call
  capture_set_callback : ℕ → Call
  capture_set_period : ℕ → ℕ → Call
  create_task : Call

-- The configuration: CONFIG_STM32_TIM4_PWM_3 or CONFIG_AM57xx_TIMER10_PWM,
-- CONFIG_STM32_TIM9_CAPTURE_2 or CONFIG_AM57xx_TIMER11_CAPTURE, and CONFIG_STM32_TIM9_PWM_1 or
-- CONFIG_AM57xx_TIMER11_PWM.
pub record Config : Type 0 where
  pub first_pwm : Bool
  pub second_capture : Bool
  pub second_pwm : Bool

-- In what the boards differ: the prescaler of the timers, and the second PWM.
pub record Board : Type 0 where
  pub prescaler : ℕ
  pub period : ℕ
  pub duty_cycle : ℕ

abbrev pub stm32 : Board
stm32 = record { prescaler = 5000; period = 1000000; duty_cycle = 500000 }

abbrev pub am57xx : Board
am57xx = record { prescaler = 1; period = 200000; duty_cycle = 100000 }

-- `ret == pdPASS`.
abbrev pub is_pass : ℤ → Bool
is_pass (pos n) = n == 1
is_pass (negsuc n) = false

-- `timer_callback`: the pin that it toggles, if its own switch of the configuration lets it.
unfoldable pub timer_callback : Bool → ℕ → Option ℕ
timer_callback pwm pin = if pwm then none else some pin

module _ (a : Answers Call) where
  -- The first timer, whose assertion tests the array of the timers instead, and the
  -- pin for the callbacks.
  unfoldable pub start_first : Config → Board → Task (List Call) (ℕ × ℕ)
  start_first config board =
      if config.first_pwm
      then (do
        timer ← get a (timer_init first board.prescaler)
        pwm ← get_checked a (pwm_init first)
        call a (pwm_set_period pwm 1000000)
        call a (pwm_set_duty_cycle pwm 500000)
        pure (timer, 0))
      else (do
        gpio ← get a gpio_init
        timer ← get a (timer_init first board.prescaler)
        pin ← get_checked a (output_pin_init gpio)
        call a (timer_periodic timer 100000)
        pure (timer, pin))

  unfoldable pub start_capture : Config → Task (List Call) (Unit {0})
  start_capture config =
      if config.second_capture
      then (do
        capture ← get_checked a capture_init
        call a (capture_set_callback capture)
        call a (capture_set_period capture 1000000))
      else pure tt

  unfoldable pub start_pwm : Config → Board → Task (List Call) (Unit {0})
  start_pwm config board =
      if config.second_pwm
      then (do
        pwm ← get_checked a (pwm_init second)
        call a (pwm_set_period pwm board.period)
        call a (pwm_set_duty_cycle pwm board.duty_cycle))
      else pure tt

  -- The second timer, or an input pin of the first; the result is `timer[1]`.
  unfoldable pub start_second : Config → Board → ℕ → Task (List Call) ℕ
  start_second config board timer =
      if config.second_capture || config.second_pwm
      then (do
        timer1 ← get_checked a (timer_init second board.prescaler)
        start_capture config
        start_pwm config board
        pure timer1)
      else (do
        gpio ← get_checked a gpio_init
        pin ← get_checked a (input_pin_init gpio)
        call a (pin_set_callback pin timer)
        call a (pin_enable_interrupt pin)
        pure 0)

  -- The overflow callbacks, with the pin as their data.
  unfoldable pub set_callbacks : ℕ → ℕ → ℕ → Task (List Call) (Unit {0})
  set_callbacks timer timer1 pin = do
    call a (timer_set_overflow_callback timer pin)
    if timer1 == 0 then pure tt else call a (timer_set_overflow_callback timer1 pin)

  -- All but the creation of the task.
  unfoldable pub start_timers : Config → Board → Task (List Call) (Unit {0})
  start_timers config board = do
    (timer, pin) ← start_first config board
    timer1 ← start_second config board timer
    set_callbacks timer timer1 pin

  unfoldable pub create : (ℤ → Bool) → Task (List Call) (Unit {0})
  create test calls = assert (test (a.status create_task)) (create_task ∷ calls)

  unfoldable pub stm32_timertest_init : Config → Task (List Call) (Unit {0})
  stm32_timertest_init config = start_timers config stm32 >> create is_pass

  unfoldable pub am57xx_timertest_init : Config → Task (List Call) (Unit {0})
  am57xx_timertest_init config = start_timers config am57xx >> create (λ ret. not (is_pass ret))

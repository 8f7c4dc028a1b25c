-- ===== src/Main.antt =====
-- The main function of src/vf610/test.c, and `initGPIO`: which parts of the test system a
-- configuration starts. A part is a test or a task; its own initialisation is one call here.
-- The HAL and the parts answer by Prelude/Calls. The numbers of the pins come from outside the
-- sources and are names, the prints are left out, and CONFIG_ASSERT is not disabled.
pub mod Gpio
pub mod Parts
pub mod Order
mod Tests
use testsystem.Prelude.{ℕ, Bool, true, false, not, ◌&&◌, ◌||◌, List, [], ◌∷◌, ◌==◌, if◌then◌else◌}
use testsystem.Prelude.Task.{Outcome, done, asserted, Task, ◌>>=◌, ◌>>◌, pure, assert, and_then}
use testsystem.Prelude.Calls.{Answers, note, when, get, get_checked, call_zero}

pub data Pin : Type 0 where
  ptb0 ptb2 pta18 pta19 ptb17 : Pin

-- The parts, in the order of the code: `bufferInit`, `irqtest_init`, `ftmInit`, `ppm_init` with
-- `ppm_start`, `pwmtest_init`, `rcInit`, `ledTask`, `taskManTask` and the tests behind it.
pub data Part : Type 0 where
  buffer_test irq_test ftm_test ppm pwm_test rc_test led_task task_man spi_test mpu_test adc_test
        tps_test uart_test linux_con speed_test :
      Part

-- A part is started with a pointer, 0 where it takes none.
pub data Call : Type 0 where
  irq_init uart_init hal_print_names : Call
  newlib_init nlibc_init : ℕ → Call
  gpio_init : ℕ → Call
  pin_init : Pin → ℕ → Call
  timer_init pwm_init : Call
  pwm_set_period pwm_set_duty_cycle : ℕ → ℕ → Call
  start : Part → ℕ → Call
  start_scheduler : Call

-- CONFIG_GPIO, CONFIG_PWM, CONFIG_PWM_TEST, CONFIG_FLEXTIMER, CONFIG_UART, CONFIG_NEWLIB,
-- CONFIG_NLIBC_PRINTF and CONFIG_INSTANCE_NAME, and the switch of each other part.
pub record Config : Type 0 where
  pub gpio : Bool
  pub pwm : Bool
  pub pwm_test : Bool
  pub flextimer : Bool
  pub uart : Bool
  pub newlib : Bool
  pub nlibc : Bool
  pub names : Bool
  pub switch : Part → Bool

-- `!defined(CONFIG_PWM_TEST) && defined(CONFIG_FLEXTIMER)`.
abbrev pub has_timer : Config → Bool
has_timer config = not config.pwm_test && config.flextimer

-- The pins of `initGPIO`.
abbrev pub pins : Config → List Pin
pins config =
    if config.pwm_test then pta18 ∷ pta19 ∷ ptb17 ∷ [] else ptb0 ∷ ptb2 ∷ pta18 ∷ pta19 ∷ ptb17 ∷ []

module _ (a : Answers Call) where
  -- The calls of `gpioPin_init` in a row, up to the first NULL; whether there was none.
  unfoldable pub init_pins : ℕ → List Pin → Task (List Call) Bool
  init_pins gpio [] = pure true
  init_pins gpio (id ∷ ids) = do
    pin ← get a (pin_init id gpio)
    let rest = init_pins gpio ids
    if pin == 0 then pure false else rest

  -- Whether `initGPIO` returns 0. The device 1 must not be there.
  unfoldable pub init_gpio : Config → Task (List Call) Bool
  init_gpio config = do
    gpio ← get a (gpio_init 0)
    if gpio == 0 then pure false else (do
      gpio2 ← get a (gpio_init 1)
      if gpio2 == 0 then init_pins gpio (pins config) else pure false)

  -- The global `pinPTA19`. Without CONFIG_GPIO it is not declared, and a part that takes it does not
  -- compile; 0 stands for it there.
  abbrev pub pin_pta19 : Config → ℕ
  pin_pta19 config = if config.gpio then a.pointer (pin_init pta19 (a.pointer (gpio_init 0))) else 0

  -- The console on a UART, and the pins. Without CONFIG_UART `uart` is not declared, and 0 stands for
  -- it.
  unfoldable pub init_console : Config → ℕ → Task (List Call) (Unit {0})
  init_console config uart = do
    when config.newlib (call_zero a (newlib_init uart))
    when config.nlibc (call_zero a (nlibc_init uart))
    when config.names (note hal_print_names)
    when config.gpio (init_gpio config >>= assert)

  unfoldable pub init_devices : Config → Task (List Call) (Unit {0})
  init_devices config = do
    call_zero a irq_init
    uart ← (if config.uart then get a uart_init else pure 0)
    init_console config uart

  -- The timer and the PWM, with `rcInit`; the result is `pwm`.
  unfoldable pub start_timer : Config → Task (List Call) ℕ
  start_timer config =
      if has_timer config
      then (do
        ftm ← get_checked a timer_init
        pwm ← get_checked a pwm_init
        call_zero a (pwm_set_period pwm 24000)
        call_zero a (pwm_set_duty_cycle pwm 10000)
        when (config.switch rc_test) (note (start rc_test ftm))
        pure pwm)
      else pure 0

  -- The parts behind the task of the LED, and the scheduler.
  unfoldable pub start_rest : Config → Task (List Call) (Unit {0})
  start_rest config = do
    when (config.switch task_man) (note (start task_man 0))
    when (config.switch spi_test) (note (start spi_test 0))
    when (config.switch mpu_test) (note (start mpu_test 0))
    when (config.switch adc_test) (note (start adc_test 0))
    when (config.switch tps_test) (note (start tps_test 0))
    when (config.switch uart_test) (note (start uart_test 0))
    when (config.switch linux_con) (note (start linux_con 0))
    when (config.switch speed_test) (note (start speed_test 0))
    note start_scheduler

  unfoldable pub main : Config → Task (List Call) (Unit {0})
  main config = do
    init_devices config
    when (config.switch buffer_test) (note (start buffer_test 0))
    when (config.switch irq_test) (note (start irq_test 0))
    when (config.switch ftm_test) (note (start ftm_test (pin_pta19 config)))
    when (config.switch ppm) (note (start ppm (pin_pta19 config)))
    when config.pwm_test (note (start pwm_test 0))
    pwm ← start_timer config
    when (config.gpio || config.pwm) (note (start led_task pwm))
    start_rest config

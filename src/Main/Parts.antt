-- ===== src/Main/Parts.antt =====
-- The parts that `main` starts before the scheduler.
use testsystem.Prelude.{
  ℕ, ◌≡◌, ◌≢◌, refl, ap, ◌∙◌, Bool, true, false, Bool-cases, inl, inr, ◌&&◌, ◌||◌, List, [], ◌∷◌,
  arith, All, ◌==◌, if◌then◌else◌,
}
use testsystem.Prelude.Task.{Outcome, Ensures, Ensures-and_then, is_zero, and_then, pure, assert}
use testsystem.Prelude.Calls.{Answers, note, when, get, call_zero, get_checked-next, call_zero-next}
use testsystem.Main.{
  Pin, Part, buffer_test, irq_test, ftm_test, ppm, pwm_test, rc_test, led_task, task_man, spi_test,
  mpu_test, adc_test, tps_test, uart_test, linux_con, speed_test, Call, irq_init, uart_init,
  hal_print_names, newlib_init, nlibc_init, gpio_init, pin_init, timer_init, pwm_init,
  pwm_set_period, pwm_set_duty_cycle, start, Config, has_timer, pins, init_pins, init_gpio,
  pin_pta19, init_console, init_devices, start_timer,
}
use testsystem.Main.Gpio.{Available}

-- The calls that are tested succeed.
pub record Succeeds (a : Answers Call) (config : Config) : Type 0 where
  pub statuses : (c : Call) → is_zero (a.status c) ≡ true
  pub gpio : config.gpio ≡ true → Available a config
  pub timer : (a.pointer timer_init == 0) ≡ false
  pub pwm : (a.pointer pwm_init == 0) ≡ false

-- The parts that were started, with their pointers, the last one first.
abbrev pub started : List Call → List (Part × ℕ)
started [] = []
started (start part p ∷ calls) = (part, p) ∷ started calls
started (c ∷ calls) = started calls

-- The parts of a configuration: the test of the PWM and that of the receiver exclude each other, and
-- the task of the LED comes with pins or PWM.
abbrev pub selected : Config → Part → Bool
selected config pwm_test = config.pwm_test
selected config rc_test = has_timer config && config.switch rc_test
selected config led_task = config.gpio || config.pwm
selected config part = config.switch part

-- The pointer that a part is given.
abbrev pub argument : Answers Call → Config → Part → ℕ
argument a config ftm_test = pin_pta19 a config
argument a config ppm = pin_pta19 a config
argument a config rc_test = a.pointer timer_init
argument a config led_task = if has_timer config then a.pointer pwm_init else 0
argument a config part = 0

-- The parts, the last one first.
abbrev pub latest_first : List Part
latest_first =
    speed_test ∷ linux_con ∷ uart_test ∷ tps_test ∷ adc_test ∷ mpu_test ∷ spi_test ∷ task_man
    ∷ led_task ∷ rc_test ∷ pwm_test ∷ ppm ∷ ftm_test ∷ irq_test ∷ buffer_test ∷ []

module _ (a : Answers Call) (config : Config) where
  abbrev pub chosen : List Part → List (Part × ℕ)
  chosen [] = []
  chosen (part ∷ parts) =
      let rest = chosen parts in
      if selected config part then (part, argument a config part) ∷ rest else rest

  abbrev pub Silent : List Call → Type 0
  Silent calls = started calls ≡ []

  -- The rules for calls under a switch of the configuration.
  module _ {B : Type 0} {Q : B → List Call → Type 0} where
    pub start-next :
        (k : Unit {0} → List Call → Outcome (List Call) B) (b : Bool) (part : Part) (p : ℕ)
        (parts : List (Part × ℕ)) (calls : List Call)
        → started calls ≡ parts
        → ((calls' : List Call)
            → started calls' ≡ (if b then (part, p) ∷ parts else parts)
            → Ensures (k tt calls') Q)
        → Ensures (and_then (when b (note (start part p)) calls) k) Q
    start-next k true part p parts calls e h = h (start part p ∷ calls) (ap (λ l. (part, p) ∷ l) e)
    start-next k false part p parts calls e h = h calls e

    note-next :
        (k : Unit {0} → List Call → Outcome (List Call) B) (b : Bool) (c : Call) (calls : List Call)
        → started (c ∷ calls) ≡ started calls
        → Silent calls
        → ((calls' : List Call) → Silent calls' → Ensures (k tt calls') Q)
        → Ensures (and_then (when b (note c) calls) k) Q
    note-next k true c calls same e h = h (c ∷ calls) (same ∙ e)
    note-next k false c calls same e h = h calls e

    get-next :
        (k : ℕ → List Call → Outcome (List Call) B) (b : Bool) (c : Call) (calls : List Call)
        → started (c ∷ calls) ≡ started calls
        → Silent calls
        → ((p : ℕ) (calls' : List Call) → Silent calls' → Ensures (k p calls') Q)
        → Ensures (and_then ((if b then get a c else pure 0) calls) k) Q
    get-next k true c calls same e h = h (a.pointer c) (c ∷ calls) (same ∙ e)
    get-next k false c calls same e h = h 0 calls e

  module _ (s : Succeeds a config) where
    init_pins-Silent :
        (gpio : ℕ) (ids : List Pin) (calls : List Call)
        → All (λ id. a.pointer (pin_init id gpio) ≢ 0) ids
        → Silent calls
        → Ensures (init_pins a gpio ids calls) (λ ok calls'. (ok ≡ true) × Silent calls')
    unfolding init_pins
    init_pins-Silent gpio [] calls h e = (true, calls, refl, (refl, e))
    init_pins-Silent gpio (id ∷ ids) calls h e =
        let some_pin : (a.pointer (pin_init id gpio) == 0) ≡ false = ground (arith, h.0) in
        rw some_pin (init_pins-Silent gpio ids (pin_init id gpio ∷ calls) h.1 e)

    init_gpio-Silent :
        (calls : List Call)
        → config.gpio ≡ true
        → Silent calls
        → Ensures (init_gpio a config calls) (λ ok calls'. (ok ≡ true) × Silent calls')
    unfolding init_gpio
    init_gpio-Silent calls g e =
        let (device, no_other, all) = s.gpio g in
        let e0 : (a.pointer (gpio_init 0) == 0) ≡ false = ground (arith, device) in
        let e1 : (a.pointer (gpio_init 1) == 0) ≡ true = ground (arith, no_other) in
        rw (e0, e1)
          (init_pins-Silent (a.pointer (gpio_init 0)) (pins config)
            (gpio_init 1 ∷ gpio_init 0 ∷ calls) all e)

    when_zero-next :
        {B : Type 0} {Q : B → List Call → Type 0} (k : Unit {0} → List Call → Outcome (List Call) B)
        (b : Bool) (c : Call) (calls : List Call)
        → started (c ∷ calls) ≡ started calls
        → Silent calls
        → ((calls' : List Call) → Silent calls' → Ensures (k tt calls') Q)
        → Ensures (and_then (when b (call_zero a c) calls) k) Q
    when_zero-next k true c calls same e h =
        call_zero-next a k c calls (s.statuses c) (h (c ∷ calls) (same ∙ e))
    when_zero-next k false c calls same e h = h calls e

    gpio-Silent :
        (b : Bool) (calls : List Call)
        → config.gpio ≡ b
        → Silent calls
        → Ensures
            (when b (λ calls. and_then (init_gpio a config calls) assert) calls)
            (λ _ calls'. Silent calls')
    gpio-Silent true calls g e =
        Ensures-and_then (init_gpio a config calls) _ (λ _ calls'. Silent calls')
          (init_gpio-Silent calls g e) (λ ok calls' (f, e'). rw f (tt, calls', refl, e'))
    gpio-Silent false calls g e = (tt, calls, refl, e)

    init_console-Silent :
        (uart : ℕ) (calls : List Call)
        → Silent calls
        → Ensures (init_console a config uart calls) (λ _ calls'. Silent calls')
    unfolding init_console
    init_console-Silent uart calls e =
        when_zero-next _ config.newlib (newlib_init uart) calls refl e (λ calls1 e1.
          when_zero-next _ config.nlibc (nlibc_init uart) calls1 refl e1 (λ calls2 e2.
            note-next _ config.names hal_print_names calls2 refl e2
              (λ calls3 e3. gpio-Silent config.gpio calls3 refl e3)))

    pub init_devices-Silent : Ensures (init_devices a config []) (λ _ calls. Silent calls)
    unfolding init_devices
    init_devices-Silent =
        call_zero-next a _ irq_init [] (s.statuses irq_init)
          (get-next _ config.uart uart_init (irq_init ∷ []) refl refl init_console-Silent)

    -- Behind the timer: the pointer for the task of the LED, and the parts so far.
    abbrev pub Timer : List Part → ℕ → List Call → Type 0
    Timer parts pwm calls =
        (pwm ≡ argument a config led_task) × (started calls ≡ chosen (rc_test ∷ parts))

    pub start_timer-Timer :
        (parts : List Part) (calls : List Call)
        → started calls ≡ chosen parts
        → Ensures (start_timer a config calls) (Timer parts)
    unfolding start_timer
    start_timer-Timer parts calls e = elim (Bool-cases (has_timer config)) [
      | inl t ↦
          (let ftm = a.pointer timer_init in
            let pwm = a.pointer pwm_init in
            rw t (
              get_checked-next a _ timer_init calls s.timer (
                get_checked-next a _ pwm_init _ s.pwm (
                  call_zero-next a _ (pwm_set_period pwm 24000) _ (s.statuses _) (
                    call_zero-next a _ (pwm_set_duty_cycle pwm 10000) _ (s.statuses _) (
                      start-next _ (config.switch rc_test) rc_test ftm (chosen parts) _ e
                        (λ calls' f. (pwm, calls', refl, (refl, f)))))))))
      | inr t ↦ rw t (0, calls, refl, (refl, e))
    ]

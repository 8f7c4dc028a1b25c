-- ===== src/Timertest/Callbacks.antt =====
-- The overflow callbacks that `timertest_init` sets.
use testsystem.Prelude.{
  ℕ, ◌≡◌, refl, Bool, false, Bool-cases, inl, inr, ◌||◌, List, [], ◌∷◌, ◌==◌, if◌then◌else◌,
}
use testsystem.Prelude.Int.{is_negative}
use testsystem.Prelude.Task.{Ensures, Ensures-and_then}
use testsystem.Prelude.Calls.{Answers, call, call-next, get_checked-next}
use testsystem.Timertest.{
  Device, first, second, Call, gpio_init, output_pin_init, input_pin_init, timer_init,
  timer_set_overflow_callback, pwm_init, pwm_set_period, pwm_set_duty_cycle, timer_periodic,
  capture_set_callback, capture_set_period, pin_set_callback, pin_enable_interrupt, capture_init,
  Config, Board, start_first, start_capture, start_pwm, start_second, set_callbacks, start_timers,
}

-- The calls whose results are tested succeed. Nothing is said of the first timer.
pub record Succeeds (a : Answers Call) : Type 0 where
  pub gpio : (a.pointer gpio_init == 0) ≡ false
  pub output_pin : (gpio : ℕ) → (a.pointer (output_pin_init gpio) == 0) ≡ false
  pub input_pin : (gpio : ℕ) → (a.pointer (input_pin_init gpio) == 0) ≡ false
  pub second_timer : (prescaler : ℕ) → (a.pointer (timer_init second prescaler) == 0) ≡ false
  pub pwm : (device : Device) → (a.pointer (pwm_init device) == 0) ≡ false
  pub capture : (a.pointer capture_init == 0) ≡ false
  pub statuses : (c : Call) → is_negative (a.status c) ≡ false

-- The timers and pins of the overflow callbacks, the last one first.
abbrev pub overflow_callbacks : List Call → List (ℕ × ℕ)
overflow_callbacks [] = []
overflow_callbacks (timer_set_overflow_callback timer pin ∷ calls) =
    (timer, pin) ∷ overflow_callbacks calls
overflow_callbacks (c ∷ calls) = overflow_callbacks calls

-- The pin for the callbacks: NULL where the first timer drives a PWM.
abbrev pub callback_pin : Answers Call → Config → ℕ
callback_pin a config =
    if config.first_pwm then 0 else a.pointer (output_pin_init (a.pointer gpio_init))

module _ (a : Answers Call) (s : Succeeds a) where
  -- The rule for a call at the end.
  call-Ensures :
      (c : Call) (calls : List Call) {Q : Unit {0} → List Call → Type 0}
      → Q tt (c ∷ calls)
      → Ensures (call a c calls) Q
  call-Ensures c calls q = (tt, c ∷ calls, simp (s.statuses c) refl, q)

  module _ (config : Config) (board : Board) where
    -- The calls so far set no callback.
    abbrev Silent : List Call → Type 0
    Silent calls = overflow_callbacks calls ≡ []

    abbrev timer0 : ℕ
    timer0 = a.pointer (timer_init first board.prescaler)

    abbrev timer1 : ℕ
    timer1 = a.pointer (timer_init second board.prescaler)

    -- The configuration has a second timer.
    abbrev has_second : Bool
    has_second = config.second_capture || config.second_pwm

    abbrev First : ℕ × ℕ → List Call → Type 0
    First (timer, pin) calls = (timer ≡ timer0) × (pin ≡ callback_pin a config) × Silent calls

    start_first-First :
        (calls : List Call) → Silent calls → Ensures (start_first a config board calls) First
    unfolding start_first
    start_first-First calls h = elim (Bool-cases config.first_pwm) [
      | inl e ↦
          (let pwm = a.pointer (pwm_init first) in
            rw e (
              get_checked-next a _ (pwm_init first) (timer_init first board.prescaler ∷ calls)
                (s.pwm first)
                (call-next a _ (pwm_set_period pwm 1000000) _ (s.statuses _) (
                  call-next a _ (pwm_set_duty_cycle pwm 500000) _ (s.statuses _)
                    ((timer0, 0), _, refl, (refl, refl, h))))))
      | inr e ↦
          (let gpio = a.pointer gpio_init in
            rw e (
              get_checked-next a _ (output_pin_init gpio)
                (timer_init first board.prescaler ∷ gpio_init ∷ calls) (s.output_pin gpio)
                (call-next a _ (timer_periodic timer0 100000) _ (s.statuses _)
                  ((timer0, a.pointer (output_pin_init gpio)), _, refl, (refl, refl, h)))))
    ]

    start_capture-Silent :
        (calls : List Call)
        → Silent calls
        → Ensures (start_capture a config calls) (λ _ calls'. Silent calls')
    unfolding start_capture
    start_capture-Silent calls h = elim (Bool-cases config.second_capture) [
      | inl e ↦
          (let capture = a.pointer capture_init in
            rw e (
              get_checked-next a _ capture_init calls s.capture (
                call-next a _ (capture_set_callback capture) _ (s.statuses _)
                  (call-Ensures (capture_set_period capture 1000000) _ h))))
      | inr e ↦ rw e (tt, calls, refl, h)
    ]

    start_pwm-Silent :
        (calls : List Call)
        → Silent calls
        → Ensures (start_pwm a config board calls) (λ _ calls'. Silent calls')
    unfolding start_pwm
    start_pwm-Silent calls h = elim (Bool-cases config.second_pwm) [
      | inl e ↦
          (let pwm = a.pointer (pwm_init second) in
            rw e (
              get_checked-next a _ (pwm_init second) calls (s.pwm second) (
                call-next a _ (pwm_set_period pwm board.period) _ (s.statuses _)
                  (call-Ensures (pwm_set_duty_cycle pwm board.duty_cycle) _ h))))
      | inr e ↦ rw e (tt, calls, refl, h)
    ]

    abbrev Second : ℕ → List Call → Type 0
    Second timer calls = (timer ≡ (if has_second then timer1 else 0)) × Silent calls

    start_second-Second :
        (timer : ℕ) (calls : List Call)
        → Silent calls
        → Ensures (start_second a config board timer calls) Second
    unfolding start_second
    start_second-Second timer calls h = elim (Bool-cases has_second) [
      | inl e ↦ rw e (
          get_checked-next a _ (timer_init second board.prescaler) calls
            (s.second_timer board.prescaler)
            (Ensures-and_then (start_capture a config (timer_init second board.prescaler ∷ calls)) _
              Timer1 (start_capture-Silent (timer_init second board.prescaler ∷ calls) h)
              (λ _ calls1 h1.
                Ensures-and_then (start_pwm a config board calls1) _ Timer1
                  (start_pwm-Silent calls1 h1)
                  (λ _ calls2 h2. (timer1, calls2, refl, (refl, h2))))))
      | inr e ↦
          (let gpio = a.pointer gpio_init in
            let pin = a.pointer (input_pin_init gpio) in
            rw e (
              get_checked-next a _ gpio_init calls s.gpio (
                get_checked-next a _ (input_pin_init gpio) _ (s.input_pin gpio) (
                  call-next a _ (pin_set_callback pin timer) _ (s.statuses _) (
                    call-next a _ (pin_enable_interrupt pin) _ (s.statuses _)
                      (0, _, refl, (refl, h)))))))
    ]
      where
        Timer1 : ℕ → List Call → Type 0
        Timer1 timer calls = (timer ≡ timer1) × Silent calls

    -- The callbacks set in the end, the last one first.
    abbrev pub registered : List (ℕ × ℕ)
    registered =
        let pin = callback_pin a config in
        if has_second then (timer1, pin) ∷ (timer0, pin) ∷ [] else (timer0, pin) ∷ []

    abbrev Registered : Unit {0} → List Call → Type 0
    Registered _ calls = overflow_callbacks calls ≡ registered

    set_callbacks-Registered :
        (calls : List Call)
        → Silent calls
        → Ensures
            (set_callbacks a timer0
              (if has_second then timer1 else 0)
              (callback_pin a config)
              calls)
            Registered
    unfolding set_callbacks
    set_callbacks-Registered calls h =
        let pin = callback_pin a config in
        elim (Bool-cases has_second) [
          | inl e ↦
              rw (e, s.second_timer board.prescaler)
                (call-next a _ (timer_set_overflow_callback timer0 pin) calls (s.statuses _)
                  (call-Ensures (timer_set_overflow_callback timer1 pin) _ (simp h refl)))
          | inr e ↦ rw e (
              call-next a _ (timer_set_overflow_callback timer0 pin) calls (s.statuses _)
                (tt, _, refl, simp h refl))
        ]

    pub start_timers-Registered : Ensures (start_timers a config board []) Registered
    unfolding start_timers
    start_timers-Registered =
        Ensures-and_then (start_first a config board []) _ Registered (start_first-First [] refl)
          (λ (timer, pin) calls1 (e, f, h1).
            Ensures-and_then (start_second a config board timer calls1) _ Registered
              (start_second-Second timer calls1 h1)
              (λ timer' calls2 (g, h2). rw (e, f, g) (set_callbacks-Registered calls2 h2)))

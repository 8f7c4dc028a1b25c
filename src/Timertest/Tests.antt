-- ===== src/Timertest/Tests.antt =====
-- The start of the timer tests at concrete answers.
use testsystem.Prelude.{ℕ, ◌≡◌, ◌≢◌, refl, true, false, some, [], ◌∷◌, All}
use testsystem.Prelude.Int.{pos}
use testsystem.Prelude.Task.{Ensures}
use testsystem.Prelude.Calls.{Answers}
use testsystem.Timertest.{
  Call, first, timer_init, Config, stm32, timer_callback, stm32_timertest_init,
}
use testsystem.Timertest.Callbacks.{Succeeds, overflow_callbacks, registered}
use testsystem.Timertest.Boards.{stm32_timertest_init-callbacks}

-- Every pointer is 4096, but that of the first timer is NULL.
abbrev pointers : Call → ℕ
pointers (timer_init first prescaler) = 0
pointers c = 4096

abbrev creates : Answers Call
creates = record { pointer = pointers; status = λ c. pos 1 }

abbrev creates-Succeeds : Succeeds creates
creates-Succeeds = record {
  gpio = refl;
  output_pin = λ gpio. refl;
  input_pin = λ gpio. refl;
  second_timer = λ prescaler. refl;
  pwm = λ device. refl;
  capture = refl;
  statuses = λ c. refl;
}

abbrev refuses : Answers Call
refuses = record creates { status = λ c. pos 0 }

abbrev refuses-Succeeds : Succeeds refuses
refuses-Succeeds = record {
  gpio = refl;
  output_pin = λ gpio. refl;
  input_pin = λ gpio. refl;
  second_timer = λ prescaler. refl;
  pwm = λ device. refl;
  capture = refl;
  statuses = λ c. refl;
}

-- The first timer drives a PWM and the second one captures.
abbrev config : Config
config = record { first_pwm = true; second_capture = true; second_pwm = false }

two_callbacks : registered creates creates-Succeeds config stm32 ≡ (4096, 0) ∷ (0, 0) ∷ []
two_callbacks = refl

stm32_timertest_init-callbacks_example :
    Ensures (stm32_timertest_init creates config []) (λ _ calls.
      (overflow_callbacks calls ≡ registered creates creates-Succeeds config stm32)
      × All (λ (c : ℕ × ℕ). timer_callback true c.1 ≢ some 0) (overflow_callbacks calls))
stm32_timertest_init-callbacks_example =
    stm32_timertest_init-callbacks creates creates-Succeeds config refl

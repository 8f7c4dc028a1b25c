-- ===== src/Main/Tests.antt =====
-- A board with its pins, and the theorems on it.
use testsystem.Prelude.{ℕ, zero, suc, ◌≡◌, refl, Bool, true, false, [], ◌∷◌, arith}
use testsystem.Prelude.Int.{pos}
use testsystem.Prelude.Task.{Ensures}
use testsystem.Prelude.Calls.{Answers}
use testsystem.Main.{Part, ppm, pwm_test, led_task, spi_test, Call, gpio_init, Config, main}
use testsystem.Main.Gpio.{Available}
use testsystem.Main.Parts.{Succeeds, chosen, latest_first}
use testsystem.Main.Order.{Scheduled, main-Scheduled}

-- Every pointer is 4096, but there is only one device of GPIO.
abbrev pointers : Call → ℕ
pointers (gpio_init zero) = 4096
pointers (gpio_init (suc n)) = 0
pointers c = 4096

abbrev board : Answers Call
board = record { pointer = pointers; status = λ c. pos 0 }

abbrev wants : Part → Bool
wants ppm = true
wants spi_test = true
wants part = false

-- The test of the PWM, with the transmitter and the test of the SPI.
abbrev config : Config
config = record {
  gpio = true;
  pwm = true;
  pwm_test = true;
  flextimer = true;
  uart = true;
  newlib = true;
  nlibc = false;
  names = false;
  switch = wants;
}

board-Available : Available board config
board-Available = omega arith

abbrev board-Succeeds : Succeeds board config
board-Succeeds = record {
  statuses = λ c. refl;
  gpio = λ _. board-Available;
  timer = refl;
  pwm = refl;
}

-- The task of the LED gets NULL for its PWM.
four_parts :
    chosen board config latest_first
    ≡ (spi_test, 0) ∷ (led_task, 0) ∷ (pwm_test, 0) ∷ (ppm, 4096) ∷ []
four_parts = refl

main-Scheduled_example : Ensures (main board config []) (Scheduled board config board-Succeeds)
main-Scheduled_example = main-Scheduled board config board-Succeeds

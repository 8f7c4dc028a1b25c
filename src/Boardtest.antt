-- ===== src/Boardtest.antt =====
-- The board tests of src/stm32/boardtest.c and src/am57xx/boardtest.c: `boardtest_init`, a number of
-- rounds of `boardtest_task`, and `buttonHandler`.
-- The driver of the pins is a parameter. A pointer to a pin is the pin that it is for, `none` is NULL.
-- The prints of `boardtest_init` are left out.
pub mod Tables
pub mod Works
pub mod Stm32
pub mod Am57xx
pub mod Toggles
pub mod Buttons
mod Tests
use testsystem.Prelude.{
  ℕ, zero, suc, Bool, true, false, Option, none, some, List, [], ◌∷◌, map, if◌then◌else◌, take,
  length,
}
use testsystem.Prelude.Int.{ℤ, is_negative}
use testsystem.Prelude.Task.{Outcome, done, asserted, Task, ◌>>=◌, ◌>>◌, pure, assert, and_then}

pub data Mode : Type 0 where
  output_pull_up input_open : Mode

pub data Edge : Type 0 where
  rising falling : Edge

-- The calls of the driver. `create_task` tells whether the answer is pdPASS.
pub record Gpio (W P : Type 0) : Type 0 where
  pub gpio_init : W → Bool × W
  pub pin_init : P → Mode → W → Option P × W
  pub set_callback : P → Edge → W → ℤ × W
  pub enable_interrupt : P → W → ℤ × W
  pub toggle_pin : P → W → ℤ × W
  pub create_task : W → Bool × W

-- `CONFIG_ASSERT(p != NULL)` and `CONFIG_ASSERT(ret >= 0)`.
abbrev pub not_null : {W P : Type 0} → Option P × W → Outcome W P
not_null (none, w) = asserted
not_null (some p, w) = done p w

abbrev pub not_failed : {W : Type 0} → ℤ × W → Outcome W (Unit {0})
not_failed (ret, w) = if is_negative ret then asserted else done tt w

abbrev pub holds : {W : Type 0} → Bool × W → Outcome W (Unit {0})
holds (true, w) = done tt w
holds (false, w) = asserted

module _ {W P : Type 0} (gpio : Gpio W P) where
  -- The first loop of `boardtest_init`.
  unfoldable pub init_pins : List P → Task W (List P)
  init_pins [] = pure []
  init_pins (id ∷ ids) = do
    pin ← λ w. not_null (gpio.pin_init id output_pull_up w)
    pins ← init_pins ids
    pure (pin ∷ pins)

  -- The second loop, on the STM32.
  unfoldable pub stm32_init_buttons : List P → Task W (List P)
  stm32_init_buttons [] = pure []
  stm32_init_buttons (id ∷ ids) = do
    button ← λ w. not_null (gpio.pin_init id input_open w)
    λ w. not_failed (gpio.set_callback button rising w)
    λ w. not_failed (gpio.enable_interrupt button w)
    buttons ← stm32_init_buttons ids
    pure (button ∷ buttons)

  -- The second loop, on the AM57xx: `ids` is what it reads, the array `pinIds` up to the length of
  -- `buttonIDs`.
  unfoldable pub am57xx_init_buttons : List P → Task W (List P)
  am57xx_init_buttons [] = pure []
  am57xx_init_buttons (id ∷ ids) = do
    button ← λ w. not_null (gpio.pin_init id output_pull_up w)
    λ w. not_failed (gpio.set_callback button falling w)
    buttons ← am57xx_init_buttons ids
    pure (button ∷ buttons)

  -- Both end with the arrays `pins` and `buttons`.
  unfoldable pub stm32_boardtest_init : List P → List P → Task W (List P × List P)
  stm32_boardtest_init pin_ids button_ids = do
    λ w. holds (gpio.gpio_init w)
    pins ← init_pins pin_ids
    buttons ← stm32_init_buttons button_ids
    λ w. holds (gpio.create_task w)
    pure (pins, buttons)

  unfoldable pub am57xx_boardtest_init : List P → List P → Task W (List P × List P)
  am57xx_boardtest_init pin_ids button_ids = do
    λ w. holds (gpio.gpio_init w)
    pins ← init_pins pin_ids
    buttons ← am57xx_init_buttons (take (length button_ids) pin_ids)
    λ w. holds (gpio.create_task w)
    pure (pins, buttons)

  -- A round of `boardtest_task`, and some.
  unfoldable pub toggle_pins : List P → Task W (Unit {0})
  toggle_pins [] = pure tt
  toggle_pins (pin ∷ pins) = do λ w. not_failed (gpio.toggle_pin pin w); toggle_pins pins

  unfoldable pub boardtest_task : ℕ → List P → Task W (Unit {0})
  boardtest_task zero pins = pure tt
  boardtest_task (suc n) pins = toggle_pins pins >> boardtest_task n pins

-- ===== src/Can/Toggle.antt =====
-- The mode of the CAN test that toggles a pin, with the two pins connected.
use testsystem.Prelude.{ℕ, zero, suc, ◌≡◌, refl, ap, ◌∙◌, Bool, true, false, not}
use testsystem.Prelude.Task.{Ensures}
use testsystem.Can.Modes.{Pins, agree, toggle_round, toggle_rounds, toggle_task}

-- `canrxa` has the level of `cantxa`.
pub record Loopback {W : Type 0} (pins : Pins W) : Type 0 where
  pub sets : (w : W) → pins.rx_value (pins.set_tx w) ≡ true
  pub toggles : (w : W) → pins.rx_value (pins.toggle_tx w) ≡ not (pins.rx_value w)

agree_refl : (b : Bool) → agree b b ≡ true
agree_refl true = refl
agree_refl false = refl

-- The level behind a number of toggles.
abbrev pub toggled : ℕ → Bool → Bool
toggled zero b = b
toggled (suc n) b = toggled n (not b)

module _ {W : Type 0} (pins : Pins W) (loopback : Loopback pins) where
  open loopback use {sets, toggles}

  toggle_rounds-level :
      (n : ℕ) (value : Bool) (w : W)
      → pins.rx_value w ≡ value
      → Ensures
          (toggle_rounds pins n value w)
          (λ value' w'. (value' ≡ toggled n value) × (pins.rx_value w' ≡ value'))
  unfolding toggle_rounds toggle_round
  toggle_rounds-level zero value w e = (value, w, refl, (refl, e))
  toggle_rounds-level (suc n) value w e =
      let flips : pins.rx_value (pins.toggle_tx w) ≡ not value = toggles w ∙ ap not e in
      let passes : agree (pins.rx_value (pins.toggle_tx w)) (not value) ≡ true =
        ap (λ b. agree b (not value)) flips ∙ agree_refl (not value) in
      rw passes (toggle_rounds-level n (not value) (pins.toggle_tx w) flips)

  -- Where the two pins are found and are connected, the mode runs any number of rounds without a
  -- failed assertion, and the level in the end is up exactly behind an even number of them.
  pub toggle_task-level :
      (n : ℕ) (w : W)
      → Ensures
          (toggle_task pins n true true w)
          (λ value w'. (value ≡ toggled n true) × (pins.rx_value w' ≡ value))
  unfolding toggle_task
  toggle_task-level n w = toggle_rounds-level n true (pins.set_tx w) (sets w)

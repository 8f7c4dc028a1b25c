-- ===== src/Main/Gpio.antt =====
-- When `initGPIO` returns 0.
use testsystem.Prelude.{
  ℕ, ◌≡◌, ◌≢◌, ◌↔◌, refl, true, false, Bool-cases, inl, inr, List, [], ◌∷◌, arith, All, ◌==◌,
}
use testsystem.Prelude.Task.{Ensures}
use testsystem.Prelude.Calls.{Answers}
use testsystem.Main.{Pin, Call, gpio_init, pin_init, Config, pins, init_pins, init_gpio}

module _ (a : Answers Call) where
  -- The driver has the pin.
  abbrev Has : ℕ → Pin → Type 0
  Has gpio id = a.pointer (pin_init id gpio) ≢ 0

  init_pins_iff :
      (gpio : ℕ) (ids : List Pin) (calls : List Call)
      → Ensures (init_pins a gpio ids calls) (λ ok _. (ok ≡ true) ↔ All (Has gpio) ids)
  unfolding init_pins
  init_pins_iff gpio [] calls = (true, calls, refl, (λ _. tt, λ _. refl))
  init_pins_iff gpio (id ∷ ids) calls = elim (Bool-cases (a.pointer (pin_init id gpio) == 0)) [
    | inl e ↦ (
      false,
      pin_init id gpio ∷ calls,
      simp e refl,
      (λ f. absurd (cc), λ h. absurd (h.0 (ground (arith, e)))),
    )
    | inr e ↦
        (let (ok, calls', f, (there, back)) = init_pins_iff gpio ids (pin_init id gpio ∷ calls) in
          let some_pin : a.pointer (pin_init id gpio) ≢ 0 = ground (arith, e) in
          (ok, calls', simp (e, f) refl, (λ t. (some_pin, there t), λ h. back h.1)))
  ]

  -- What `initGPIO` asks for: the device 0, no device 1, and every pin of the configuration.
  abbrev pub Available : Config → Type 0
  Available config =
      (a.pointer (gpio_init 0) ≢ 0)
      × (a.pointer (gpio_init 1) ≡ 0)
      × All (λ id. a.pointer (pin_init id (a.pointer (gpio_init 0))) ≢ 0) (pins config)

  -- `initGPIO` returns 0 exactly if the GPIO device 0 can be had and the device 1 can not, and
  -- every pin that the configuration asks for can be had.
  pub init_gpio_iff :
      (config : Config) (calls : List Call)
      → Ensures (init_gpio a config calls) (λ ok _. (ok ≡ true) ↔ Available config)
  unfolding init_gpio
  init_gpio_iff config calls = elim (Bool-cases (a.pointer (gpio_init 0) == 0)) [
    | inl e ↦ (
      false,
      gpio_init 0 ∷ calls,
      simp e refl,
      (λ f. absurd (cc), λ h. absurd (h.0 (ground (arith, e)))),
    )
    | inr e ↦ elim (Bool-cases (a.pointer (gpio_init 1) == 0)) [
      | inl f ↦
          (let gpio = a.pointer (gpio_init 0) in
            let (ok, calls', g, (there, back)) =
              init_pins_iff gpio (pins config) (gpio_init 1 ∷ gpio_init 0 ∷ calls) in
            let device : gpio ≢ 0 = ground (arith, e) in
            let no_other : a.pointer (gpio_init 1) ≡ 0 = ground (arith, f) in
            (ok, calls', simp (e, f, g) refl, (λ t. (device, no_other, there t), λ h. back h.2)))
      | inr f ↦ (
        false,
        gpio_init 1 ∷ gpio_init 0 ∷ calls,
        simp (e, f) refl,
        (λ t. absurd (cc), λ h. absurd (ground (arith, f, h.1))),
      )
    ]
  ]

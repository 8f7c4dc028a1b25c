-- ===== src/Boardtest/Stm32.antt =====
-- What `boardtest_init` makes of the pins of the STM32.
use testsystem.Prelude.{
  ◌≡◌, refl, sym, ap, ◌∙◌, subst, Bool, true, false, ◌&&◌, ◌||◌, Option, none, some, List, [], ◌∷◌,
  ◌++◌, map, append-nil, arith, ◌==◌, if◌then◌else◌, All,
}
use testsystem.Prelude.Task.{Ensures, Ensures-and_then}
use testsystem.Boardtest.{
  Mode, output_pull_up, input_open, rising, Gpio, init_pins, stm32_init_buttons,
  stm32_boardtest_init,
}
use testsystem.Boardtest.Works.{Call, init, callback, enable, toggle, Works, noted}
use testsystem.Boardtest.Tables.{Pin, PinDesc, stm32_pins, stm32_buttons}

abbrev pub same : Pin → Pin → Bool
same (port, number) (port', number') = port == port' && number == number'

-- The mode that a pin was initialised with last.
abbrev pub mode_of : Pin → Option Mode → List (Call Pin) → Option Mode
mode_of p mode [] = mode
mode_of p mode (init id m ∷ calls) = mode_of p (if same p id then some m else mode) calls
mode_of p mode (callback id e ∷ calls) = mode_of p mode calls
mode_of p mode (enable id ∷ calls) = mode_of p mode calls
mode_of p mode (toggle id ∷ calls) = mode_of p mode calls

-- Whether the handler was registered for a pin, and then its interrupt enabled.
abbrev pub listens : Pin → Bool → List (Call Pin) → Bool
listens p ready [] = false
listens p ready (init id m ∷ calls) = listens p ready calls
listens p ready (callback id e ∷ calls) = listens p (ready || same p id) calls
listens p ready (enable id ∷ calls) = (ready && same p id) || listens p ready calls
listens p ready (toggle id ∷ calls) = listens p ready calls

abbrev pub button_calls : {P : Type 0} → List P → List (Call P)
button_calls [] = []
button_calls (id ∷ ids) = init id input_open ∷ (callback id rising ∷ (enable id ∷ button_calls ids))

module _ {W P : Type 0} (gpio : Gpio W P) (works : Works gpio) where
  open works use {log, starts, inits, callbacks, enables, creates}

  pub init_pins-log :
      (ids : List P) (w : W)
      → Ensures
          (init_pins gpio ids w)
          (λ pins w'. (pins ≡ ids) × (log w' ≡ log w ++ map (λ id. init id output_pull_up) ids))
  unfolding init_pins
  init_pins-log [] w = ([], w, refl, (refl, sym (append-nil (log w))))
  init_pins-log (id ∷ ids) w =
      let Post = λ (pins : List P) (w' : W).
        (pins ≡ id ∷ ids) × (log w' ≡ log w ++ map (λ id. init id output_pull_up) (id ∷ ids)) in
      Ensures-and_then _ _ Post (inits id output_pull_up w) λ pin w1 e1.
        Ensures-and_then _ _ Post (init_pins-log ids w1) λ pins w2 e2. (
          pin ∷ pins,
          w2,
          refl,
          (
            ap (λ p. p ∷ pins) e1.0 ∙ ap (λ ps. id ∷ ps) e2.0,
            noted (log w) (init id output_pull_up ∷ []) _ e1.1 e2.1,
          ),
        )

  init_buttons-log :
      (ids : List P) (w : W)
      → Ensures
          (stm32_init_buttons gpio ids w)
          (λ buttons w'. (buttons ≡ ids) × (log w' ≡ log w ++ button_calls ids))
  unfolding stm32_init_buttons
  init_buttons-log [] w = ([], w, refl, (refl, sym (append-nil (log w))))
  init_buttons-log (id ∷ ids) w =
      let Post = λ (buttons : List P) (w' : W).
        (buttons ≡ id ∷ ids) × (log w' ≡ log w ++ button_calls (id ∷ ids)) in
      Ensures-and_then _ _ Post (inits id input_open w) λ b w1 e1.
        Ensures-and_then _ _ Post (callbacks b rising w1) λ _ w2 e2.
          Ensures-and_then _ _ Post (enables b w2) λ _ w3 e3.
            Ensures-and_then _ _ Post (init_buttons-log ids w3) λ bs w4 e4. (
              b ∷ bs,
              w4,
              refl,
              (
                ap (λ p. p ∷ bs) e1.0 ∙ ap (λ ps. id ∷ ps) e4.0,
                noted (log w) (init id input_open ∷ (callback b rising ∷ (enable b ∷ []))) _
                      (noted (log w) (init id input_open ∷ (callback b rising ∷ [])) _
                        (noted (log w) (init id input_open ∷ []) _ e1.1 e2) e3)
                      e4.1
                    ∙ ap
                        (λ p.
                          log w
                          ++ (init id input_open
                              ∷ (callback p rising ∷ (enable p ∷ button_calls ids))))
                        e1.0,
              ),
            )

  pub init-log :
      (pin_ids button_ids : List P) (w : W)
      → Ensures (stm32_boardtest_init gpio pin_ids button_ids w) (λ (pins, buttons) w'.
        (pins ≡ pin_ids)
        × (buttons ≡ button_ids)
        × (log w'
            ≡ log w ++ (map (λ id. init id output_pull_up) pin_ids ++ button_calls button_ids)))
  unfolding stm32_boardtest_init
  init-log pin_ids button_ids w =
      let Post = λ (r : List P × List P) (w' : W).
        (r.0 ≡ pin_ids)
        × (r.1 ≡ button_ids)
        × (log w'
            ≡ log w ++ (map (λ id. init id output_pull_up) pin_ids ++ button_calls button_ids)) in
      Ensures-and_then _ _ Post (starts w) λ _ w1 e1.
        Ensures-and_then _ _ Post (init_pins-log pin_ids w1) λ pins w2 e2.
          Ensures-and_then _ _ Post (init_buttons-log button_ids w2) λ buttons w3 e3.
            Ensures-and_then _ _ Post (creates w3) λ _ w4 e4. (
              (pins, buttons),
              w4,
              refl,
              (
                e2.0,
                e3.0,
                e4
                    ∙ noted (log w1) (map (λ id. init id output_pull_up) pin_ids) _ e2.1 e3.1
                    ∙ ap
                        (λ l.
                          l
                          ++ (map (λ id. init id output_pull_up) pin_ids
                              ++ button_calls button_ids))
                        e1,
              ),
            )

-- The pins of the two tables.
abbrev pub pin_ids : List Pin
pin_ids = map (λ (d : PinDesc). d.pin_id) stm32_pins

abbrev pub button_ids : List Pin
button_ids = map (λ (d : PinDesc). d.pin_id) stm32_buttons

abbrev pub Ready : List (Call Pin) → Type 0
Ready calls =
    All (λ id. mode_of id none calls ≡ some output_pull_up) pin_ids
    × All (λ id. (mode_of id none calls ≡ some input_open) × (listens id false calls ≡ true))
        button_ids

expected-Ready : Ready (map (λ id. init id output_pull_up) pin_ids ++ button_calls button_ids)
expected-Ready = ground arith

-- On a board whose pins work, `boardtest_init` fails no assertion; behind it every pin of the first
-- table is an output, and every button an input whose handler is registered and whose interrupt was
-- enabled behind that. The arrays hold the pins and the buttons.
pub boardtest_init-Ready :
    {W : Type 0} (gpio : Gpio W Pin) (works : Works gpio) (w : W)
    → works.log w ≡ []
    → Ensures
        (stm32_boardtest_init gpio pin_ids button_ids w)
        (λ (pins, buttons) w'. (pins ≡ pin_ids) × (buttons ≡ button_ids) × Ready (works.log w'))
boardtest_init-Ready gpio works w fresh =
    let (r, w', e, done) = init-log gpio works pin_ids button_ids w in
    let calls = map (λ id. init id output_pull_up) pin_ids ++ button_calls button_ids in
    (
      r,
      w',
      e,
      (done.0, done.1, subst Ready (sym (done.2 ∙ ap (λ l. l ++ calls) fresh)) expected-Ready),
    )

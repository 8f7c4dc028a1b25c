-- ===== src/Boardtest/Toggles.antt =====
-- How often `boardtest_task` toggles a pin of the STM32.
use testsystem.Prelude.{
  ℕ, zero, suc, ◌+◌, ◌≡◌, refl, sym, ap, ◌∙◌, subst, List, [], ◌∷◌, ◌++◌, map, arith, if◌then◌else◌,
  All, All-imp,
}
use testsystem.Prelude.Task.{◌>>=◌, Ensures, Ensures-and_then}
use testsystem.Boardtest.{Gpio, output_pull_up, toggle_pins, boardtest_task, stm32_boardtest_init}
use testsystem.Boardtest.Works.{Call, init, callback, enable, toggle, Works}
use testsystem.Boardtest.Tables.{Pin}
use testsystem.Boardtest.Stm32.{same, pin_ids, button_ids, button_calls, init-log}

abbrev pub toggles_of : Pin → List (Call Pin) → ℕ
toggles_of p [] = 0
toggles_of p (toggle id ∷ calls) =
    let rest = toggles_of p calls in if same p id then suc rest else rest
toggles_of p (_ ∷ calls) = toggles_of p calls

abbrev pub occurrences : Pin → List Pin → ℕ
occurrences p [] = 0
occurrences p (id ∷ ids) = let rest = occurrences p ids in if same p id then suc rest else rest

toggles_of-note :
    (p id : Pin) (calls : List (Call Pin))
    → toggles_of p (calls ++ (toggle id ∷ [])) ≡ toggles_of p calls + (if same p id then 1 else 0)
toggles_of-note p id [] = ground arith
toggles_of-note p id (toggle q ∷ calls) = ground (arith, toggles_of-note p id calls)
toggles_of-note p id (init q m ∷ calls) = toggles_of-note p id calls
toggles_of-note p id (callback q e ∷ calls) = toggles_of-note p id calls
toggles_of-note p id (enable q ∷ calls) = toggles_of-note p id calls

-- No pin stands twice in the table, and no button stands in it.
pins_once : All (λ p. occurrences p pin_ids ≡ 1) pin_ids
pins_once = omega arith

no_buttons : All (λ p. occurrences p pin_ids ≡ 0) button_ids
no_buttons = omega arith

module _ {W : Type 0} (gpio : Gpio W Pin) (works : Works gpio) where
  open works use {log, toggles}

  toggle_pins-toggles :
      (pins : List Pin) (w : W)
      → Ensures
          (toggle_pins gpio pins w)
          (λ _ w'. (p : Pin) → toggles_of p (log w') ≡ toggles_of p (log w) + occurrences p pins)
  unfolding toggle_pins
  toggle_pins-toggles [] w = (tt, w, refl, λ p. omega arith)
  toggle_pins-toggles (id ∷ pins) w =
      let Post = λ (a : Unit {0}) (w' : W).
        (p : Pin) → toggles_of p (log w') ≡ toggles_of p (log w) + occurrences p (id ∷ pins) in
      Ensures-and_then _ _ Post (toggles id w) λ _ w1 e1.
        let (a, w2, d, later) = toggle_pins-toggles pins w1 in
        (
          a,
          w2,
          d,
          λ p.
              let now : toggles_of p (log w1)
                  ≡ toggles_of p (log w) + (if same p id then 1 else 0) =
                ap (toggles_of p) e1 ∙ toggles_of-note p id (log w) in
              ground (arith, later p, now),
        )

  boardtest_task-toggles :
      (n : ℕ) (pins : List Pin) (w : W)
      → Ensures (boardtest_task gpio n pins w) (λ _ w'.
        (p : Pin)
        → (occurrences p pins ≡ 0 → toggles_of p (log w') ≡ toggles_of p (log w))
          × (occurrences p pins ≡ 1 → toggles_of p (log w') ≡ toggles_of p (log w) + n))
  unfolding boardtest_task
  boardtest_task-toggles zero pins w = (tt, w, refl, λ p. (λ _. refl, λ _. omega arith))
  boardtest_task-toggles (suc n) pins w =
      let Post = λ (a : Unit {0}) (w' : W).
        (p : Pin)
        → (occurrences p pins ≡ 0 → toggles_of p (log w') ≡ toggles_of p (log w))
          × (occurrences p pins ≡ 1 → toggles_of p (log w') ≡ toggles_of p (log w) + suc n) in
      Ensures-and_then _ _ Post (toggle_pins-toggles pins w) λ _ w1 e1.
        let (a, w2, d, later) = boardtest_task-toggles n pins w1 in
        (
          a,
          w2,
          d,
          λ p. (
            λ none. omega (arith, (later p).0 none, e1 p, none),
            λ once. omega (arith, (later p).1 once, e1 p, once),
          ),
        )

  -- The whole test of the STM32, if its pins work: `boardtest_init` of src/stm32/boardtest.c, and then
  -- `n` rounds of the task, fail no assertion, and have toggled every pin of that board's first table
  -- exactly `n` times and none of its buttons.
  pub board_test-toggles :
      (n : ℕ) (w : W)
      → log w ≡ []
      → Ensures
          ((stm32_boardtest_init gpio pin_ids button_ids >>= λ arrays.
              boardtest_task gpio n arrays.0)
            w)
          (λ _ w'.
            All (λ p. toggles_of p (log w') ≡ n) pin_ids
            × All (λ p. toggles_of p (log w') ≡ 0) button_ids)
  board_test-toggles n w fresh =
      let Post = λ (a : Unit {0}) (w' : W).
        All (λ p. toggles_of p (log w') ≡ n) pin_ids
        × All (λ p. toggles_of p (log w') ≡ 0) button_ids in
      let expected = map (λ id. init id output_pull_up) pin_ids ++ button_calls button_ids in
      Ensures-and_then _ _ Post (init-log gpio works pin_ids button_ids w) λ arrays w1 e1.
        let before : (p : Pin) → toggles_of p (log w1) ≡ 0 =
          λ p. ap (toggles_of p) (e1.2 ∙ ap (λ l. l ++ expected) fresh) in
        let (a, w2, d, end) = boardtest_task-toggles n pin_ids w1 in
        subst (λ pins. Ensures (boardtest_task gpio n pins w1) Post) (sym e1.0)
          (
            a,
            w2,
            d,
            (
              All-imp {P = λ p. occurrences p pin_ids ≡ 1} {Q = λ p. toggles_of p (log w2) ≡ n}
                  pin_ids (λ p once. omega (arith, (end p).1 once, before p)) pins_once,
              All-imp {P = λ p. occurrences p pin_ids ≡ 0} {Q = λ p. toggles_of p (log w2) ≡ 0}
                  button_ids (λ p none. omega (arith, (end p).0 none, before p)) no_buttons,
            ),
          )

-- ===== src/Boardtest/Works.antt =====
-- A board whose pins work: every call succeeds and is noted in a log.
use testsystem.Prelude.{◌≡◌, ap, ◌∙◌, List, [], ◌∷◌, ◌++◌, append_assoc}
use testsystem.Prelude.Task.{Ensures}
use testsystem.Boardtest.{Mode, Edge, Gpio, not_null, not_failed, holds}

pub data Call (P : Type 0) : Type 0 where
  init : P → Mode → Call P
  callback : P → Edge → Call P
  enable : P → Call P
  toggle : P → Call P

pub record Works {W P : Type 0} (gpio : Gpio W P) : Type 0 where
  pub log : W → List (Call P)
  pub starts : (w : W) → Ensures (holds (gpio.gpio_init w)) (λ _ w'. log w' ≡ log w)
  pub inits :
      (id : P) (mode : Mode) (w : W)
      → Ensures
          (not_null (gpio.pin_init id mode w))
          (λ p w'. (p ≡ id) × (log w' ≡ log w ++ (init id mode ∷ [])))
  pub callbacks :
      (p : P) (edge : Edge) (w : W)
      → Ensures
          (not_failed (gpio.set_callback p edge w))
          (λ _ w'. log w' ≡ log w ++ (callback p edge ∷ []))
  pub enables :
      (p : P) (w : W)
      → Ensures (not_failed (gpio.enable_interrupt p w)) (λ _ w'. log w' ≡ log w ++ (enable p ∷ []))
  pub toggles :
      (p : P) (w : W)
      → Ensures (not_failed (gpio.toggle_pin p w)) (λ _ w'. log w' ≡ log w ++ (toggle p ∷ []))
  pub creates : (w : W) → Ensures (holds (gpio.create_task w)) (λ _ w'. log w' ≡ log w)

-- Two notes one after the other.
pub noted :
    {P : Type 0} (l xs ys : List (Call P)) {m n : List (Call P)}
    → m ≡ l ++ xs
    → n ≡ m ++ ys
    → n ≡ l ++ (xs ++ ys)
noted l xs ys e f = f ∙ ap (λ k. k ++ ys) e ∙ append_assoc l xs ys

-- ===== src/Boardtest/Tests.antt =====
-- Pins that only keep a log, and the theorems at concrete inputs.
use testsystem.Prelude.{◌≡◌, refl, true, some, List, [], ◌∷◌, ◌++◌, All}
use testsystem.Prelude.Int.{pos}
use testsystem.Prelude.Task.{◌>>=◌, Ensures}
use testsystem.Boardtest.{Gpio, stm32_boardtest_init, boardtest_task}
use testsystem.Boardtest.Works.{Call, init, callback, enable, toggle, Works}
use testsystem.Boardtest.Stm32.{pin_ids, button_ids}
use testsystem.Boardtest.Toggles.{toggles_of, board_test-toggles}

abbrev logging : {P : Type 0} → Gpio (List (Call P)) P
logging = record {
  gpio_init = λ w. (true, w);
  pin_init = λ id mode w. (some id, w ++ (init id mode ∷ []));
  set_callback = λ p edge w. (pos 0, w ++ (callback p edge ∷ []));
  enable_interrupt = λ p w. (pos 0, w ++ (enable p ∷ []));
  toggle_pin = λ p w. (pos 0, w ++ (toggle p ∷ []));
  create_task = λ w. (true, w);
}

abbrev logging_works : {P : Type 0} → Works {P = P} logging
logging_works = record {
  log = λ w. w;
  starts = λ w. (tt, w, refl, refl);
  inits = λ id mode w. (id, w ++ (init id mode ∷ []), refl, (refl, refl));
  callbacks = λ p edge w. (tt, w ++ (callback p edge ∷ []), refl, refl);
  enables = λ p w. (tt, w ++ (enable p ∷ []), refl, refl);
  toggles = λ p w. (tt, w ++ (toggle p ∷ []), refl, refl);
  creates = λ w. (tt, w, refl, refl);
}

board_test-toggles_example :
    Ensures
      ((stm32_boardtest_init logging pin_ids button_ids >>= λ arrays.
          boardtest_task logging 7 arrays.0)
        [])
      (λ _ w'. All (λ p. toggles_of p w' ≡ 7) pin_ids × All (λ p. toggles_of p w' ≡ 0) button_ids)
board_test-toggles_example = board_test-toggles logging logging_works 7 [] refl

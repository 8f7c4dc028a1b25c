-- ===== src/Main/Order.antt =====
-- The order in which `main` starts the parts.
use testsystem.Prelude.{◌≡◌, refl, ◌||◌, List, [], ◌∷◌}
use testsystem.Prelude.Task.{Ensures, Ensures-and_then}
use testsystem.Prelude.Calls.{Answers}
use testsystem.Main.{
  Part, buffer_test, irq_test, ftm_test, ppm, pwm_test, rc_test, led_task, task_man, spi_test,
  mpu_test, adc_test, tps_test, uart_test, linux_con, speed_test, Call, start_scheduler, Config,
  start_timer, pin_pta19, init_devices, start_rest, main,
}
use testsystem.Main.Parts.{
  Succeeds, started, argument, latest_first, chosen, start-next, init_devices-Silent,
  start_timer-Timer,
}

module _ (a : Answers Call) (config : Config) (s : Succeeds a config) where
  abbrev before_timer : List Part
  before_timer = pwm_test ∷ ppm ∷ ftm_test ∷ irq_test ∷ buffer_test ∷ []

  abbrev before_rest : List Part
  before_rest = led_task ∷ rc_test ∷ before_timer

  -- The scheduler comes last, behind the parts of the configuration.
  abbrev pub Scheduled : Unit {0} → List Call → Type 0
  Scheduled _ calls =
      (earlier : List Call) × (calls ≡ start_scheduler ∷ earlier)
      × (started earlier ≡ chosen a config latest_first)

  start_rest-Scheduled :
      (calls : List Call)
      → started calls ≡ chosen a config before_rest
      → Ensures (start_rest a config calls) Scheduled
  unfolding start_rest
  start_rest-Scheduled c0 e0 =
      start-next a config _ (config.switch task_man) task_man 0 _ c0 e0 (λ c1 e1.
        start-next a config _ (config.switch spi_test) spi_test 0 _ c1 e1 (λ c2 e2.
          start-next a config _ (config.switch mpu_test) mpu_test 0 _ c2 e2 (λ c3 e3.
            start-next a config _ (config.switch adc_test) adc_test 0 _ c3 e3 (λ c4 e4.
              start-next a config _ (config.switch tps_test) tps_test 0 _ c4 e4 (λ c5 e5.
                start-next a config _ (config.switch uart_test) uart_test 0 _ c5 e5 (λ c6 e6.
                  start-next a config _ (config.switch linux_con) linux_con 0 _ c6 e6 (λ c7 e7.
                    start-next a config _ (config.switch speed_test) speed_test 0 _ c7 e7
                      (λ c8 e8. (tt, start_scheduler ∷ c8, refl, (c8, refl, e8))))))))))

  -- In every configuration whose calls succeed, `main` starts the scheduler as its last call, and
  -- before it every part that the configuration selects, once and in the order of the code, and no
  -- other. The transmitter gets the pin PTA19, the receiver the timer, and the task of the LED the PWM
  -- where the configuration has the timer and not the test of the PWM, and NULL elsewhere.
  pub main-Scheduled : Ensures (main a config []) Scheduled
  unfolding main
  main-Scheduled =
      Ensures-and_then (init_devices a config []) _ Scheduled (init_devices-Silent a config s)
        (λ _ c0 e0.
          start-next a config _ (config.switch buffer_test) buffer_test 0 _ c0 e0 (λ c1 e1.
            start-next a config _ (config.switch irq_test) irq_test 0 _ c1 e1 (λ c2 e2.
              start-next a config _ (config.switch ftm_test) ftm_test (pin_pta19 a config) _ c2 e2
                (λ c3 e3.
                  start-next a config _ (config.switch ppm) ppm (pin_pta19 a config) _ c3 e3
                    (λ c4 e4. start-next a config _ (config.pwm_test) pwm_test 0 _ c4 e4 (λ c5 e5.
                      Ensures-and_then (start_timer a config c5) _ Scheduled
                        (start_timer-Timer a config s before_timer c5 e5)
                        (λ pwm c6 (f, e6). rw f (
                          start-next a config _ (config.gpio || config.pwm) led_task
                            (argument a config led_task) _ c6 e6 start_rest-Scheduled))))))))

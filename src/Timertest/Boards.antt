-- ===== src/Timertest/Boards.antt =====
-- What `timertest_init` comes to on the two boards: the last assertion, and the pins that the
-- callbacks toggle.
use testsystem.Prelude.{
  ℕ, ◌≡◌, ◌≢◌, refl, sym, ap, subst, Bool, true, false, Bool-cases, inl, inr, some, List, [], ◌∷◌,
  arith, All, not, ◌||◌,
}
use testsystem.Prelude.Int.{ℤ}
use testsystem.Prelude.Task.{
  Outcome, done, asserted, waiting, outside, Ensures, Ensures-and_then, assert-Ensures, and_then,
  ◌>>◌,
}
use testsystem.Prelude.Calls.{Answers}
use testsystem.Timertest.{
  Call, gpio_init, create_task, Config, Board, stm32, am57xx, is_pass, timer_callback, start_timers,
  create, stm32_timertest_init, am57xx_timertest_init,
}
use testsystem.Timertest.Callbacks.{
  Succeeds, overflow_callbacks, callback_pin, registered, start_timers-Registered,
}

-- A property of the pin holds of every callback, since all have the same.
registered-All :
    (a : Answers Call) (s : Succeeds a) (config : Config) (board : Board) (P : ℕ → Type 0)
    → P (callback_pin a config)
    → All (λ (c : ℕ × ℕ). P c.1) (registered a s config board)
registered-All a s config board P h =
    elim (Bool-cases (config.second_capture || config.second_pwm)) [
      | inl e ↦ rw e (h, (h, tt))
      | inr e ↦ rw e (h, tt)
    ]

-- On the STM32 the switch of `timer_callback` is the one of the first timer.
callback_pin-valid :
    (a : Answers Call) (s : Succeeds a) (config : Config)
    → timer_callback config.first_pwm (callback_pin a config) ≢ some 0
unfolding timer_callback
callback_pin-valid a s config e = elim (Bool-cases config.first_pwm) [
  | inl f ↦ absurd (ground (arith, e, f))
  | inr f ↦ absurd (ground (arith, e, f, s.output_pin (a.pointer gpio_init)))
]

-- Behind the start the last assertion decides.
created-Registered :
    (a : Answers Call) (s : Succeeds a) (config : Config) (board : Board) (test : ℤ → Bool)
    → test (a.status create_task) ≡ true
    → Ensures
        ((start_timers a config board >> create a test) [])
        (λ _ calls. overflow_callbacks calls ≡ registered a s config board)
unfolding create
created-Registered a s config board test h =
    Ensures-and_then (start_timers a config board []) _ Q (start_timers-Registered a s config board)
      (λ _ calls e. assert-Ensures (test (a.status create_task)) (create_task ∷ calls) Q h e)
  where
    Q : Unit {0} → List Call → Type 0
    Q _ calls = overflow_callbacks calls ≡ registered a s config board

-- Where the calls that are tested succeed, even if the first timer could not be had, `timertest_init`
-- of the STM32 passes its assertions in every configuration. It has then set the overflow callback
-- of the first timer, and of the second where the configuration has one, both for the same pin, and
-- no callback toggles the pin NULL.
pub stm32_timertest_init-callbacks :
    (a : Answers Call) (s : Succeeds a) (config : Config)
    → is_pass (a.status create_task) ≡ true
    → Ensures (stm32_timertest_init a config []) (λ _ calls.
      (overflow_callbacks calls ≡ registered a s config stm32)
      × All
          (λ (c : ℕ × ℕ). timer_callback config.first_pwm c.1 ≢ some 0)
          (overflow_callbacks calls))
unfolding stm32_timertest_init
stm32_timertest_init-callbacks a s config h =
    let P = λ (pin : ℕ). timer_callback config.first_pwm pin ≢ some 0 in
    let (u, calls, e, r) = created-Registered a s config stm32 is_pass h in
    let all = registered-All a s config stm32 P (callback_pin-valid a s config) in
    (u, calls, e, (r, subst (All (λ (c : ℕ × ℕ). P c.1)) (sym r) all))

-- A task that ends at an assertion whatever comes before.
and_then-asserted :
    {W A B : Type 0} (o : Outcome W A) (k : A → W → Outcome W B) (b : B) (w : W)
    → ((a : A) (w : W) → k a w ≡ asserted)
    → and_then o k ≢ done b w
and_then-asserted (done a v) k b w h e = absurd (cc (h a v))
and_then-asserted asserted k b w h e = absurd (cc)
and_then-asserted waiting k b w h e = absurd (cc)
and_then-asserted outside k b w h e = absurd (cc)

-- On the AM57xx, whatever the other calls answer, `timertest_init` never ends in any configuration
-- where the task is created: its last assertion demands that it is not.
pub am57xx_timertest_init-created :
    (a : Answers Call) (config : Config) (calls calls' : List Call)
    → is_pass (a.status create_task) ≡ true
    → am57xx_timertest_init a config calls ≢ done tt calls'
unfolding am57xx_timertest_init create
am57xx_timertest_init-created a config calls calls' h =
    and_then-asserted (start_timers a config am57xx calls) _ tt calls' (λ _ w. simp h refl)

-- On the AM57xx, where the calls that are tested succeed and the task is not created,
-- `timertest_init` ends. If the first timer drives a PWM, it has then set callbacks that all toggle
-- the pin NULL while the switch of `timer_callback`, which is not that of the PWM, is off.
pub am57xx_timertest_init-callbacks :
    (a : Answers Call) (s : Succeeds a) (config : Config)
    → is_pass (a.status create_task) ≡ false
    → config.first_pwm ≡ true
    → Ensures (am57xx_timertest_init a config []) (λ _ calls.
      (overflow_callbacks calls ≡ registered a s config am57xx)
      × All (λ (c : ℕ × ℕ). timer_callback false c.1 ≡ some 0) (overflow_callbacks calls))
unfolding am57xx_timertest_init timer_callback
am57xx_timertest_init-callbacks a s config h f =
    let P = λ (pin : ℕ). timer_callback false pin ≡ some 0 in
    let (u, calls, e, r) =
      created-Registered a s config am57xx (λ ret. not (is_pass ret)) (ap not h) in
    let all = registered-All a s config am57xx P (simp f refl) in
    (u, calls, e, (r, subst (All (λ (c : ℕ × ℕ). P c.1)) (sym r) all))

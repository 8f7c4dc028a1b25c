-- ===== src/Speedtest/Tests.antt =====
-- Short runs of the measurement, and its theorems at concrete inputs.
use testsystem.Prelude.{ℕ, ◌+◌, ◌≡◌, refl, true, List, [], ◌∷◌}
use testsystem.Speedtest.{Measure, Speedtest, running, out_of_bounds, step, stamp, rounds, initial}
use testsystem.Speedtest.Progress.{speedtest_task-overruns}

abbrev steady : ℕ → Measure
steady t = record { isr_time = t; task_time = t + 5; woken = true }

-- Nine rounds: the semaphore test is left out of the second turn.
abbrev tests_run : List ℕ
tests_run = 3 ∷ 2 ∷ 1 ∷ 3 ∷ 2 ∷ 1 ∷ 0 ∷ []

abbrev after_nine : Speedtest ℕ
after_nine = elim (rounds (λ c. c) steady 0 9 (initial 0)) [ running s ↦ s | _ ↦ initial 0 ]

nine_rounds : (after_nine.tested ≡ tests_run) × (after_nine.iteration ≡ 2)
unfolding rounds step stamp initial
nine_rounds = (refl, refl)

speedtest_task-overruns_example :
    (s : Speedtest ℕ) × (rounds (λ c. c) steady 0 4004 (initial 0) ≡ running s)
    × (s.iteration ≡ 1000)
    × (step (λ c. c) (steady 4004) s ≡ out_of_bounds)
speedtest_task-overruns_example = speedtest_task-overruns (λ c. c) steady (λ t. refl) 0

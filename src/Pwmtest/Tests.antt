-- ===== src/Pwmtest/Tests.antt =====
-- The captures after the start, and the theorems behind them.
use testsystem.Prelude.{
  ℕ, ◌≡◌, ◌≢◌, inl, refl, subst, true, false, Option, none, some, List, [], ◌∷◌, arith,
}
use testsystem.Prelude.Int.{pos}
use testsystem.Ramp.{pwm_round}
use testsystem.Pwmtest.{State, initial, compares, capture_irq, pwm_task}
use testsystem.Pwmtest.Interleaving.{Reach, here, next, irq, Outputs}
use testsystem.Pwmtest.Edges.{compares-Outputs, capture_irq-Pulse}

abbrev continue : Option State → (State → Option State) → Option State
continue none k = none
continue (some s) k = k s

abbrev captures : List ℕ → State → Option State
captures [] s = some s
captures (time ∷ times) s = continue (capture_irq time s) (captures times)

continue-eq_some :
    (o : Option State) (k : State → Option State) {t : State}
    → continue o k ≡ some t
    → (u : State) × (o ≡ some u) × (k u ≡ some t)
continue-eq_some none k e = absurd (cc)
continue-eq_some (some u) k e = (u, refl, e)

captures-Reach :
    (times : List ℕ) (r s t : State) → Reach r s → captures times s ≡ some t → Reach r t
captures-Reach [] r s t reached e = subst (Reach r) (ground (arith, e)) reached
captures-Reach (time ∷ times) r s t reached e =
    let (u, first, rest) = continue-eq_some (capture_irq time s) (captures times) e in
    captures-Reach times r u t (next reached (irq time first)) rest

-- One capture at each edge of a pulse of 10000.
abbrev edges : List ℕ
edges =
    10000 ∷ 20000 ∷ 30000 ∷ 40000 ∷ 50000 ∷ 60000 ∷ 70000 ∷ 80000 ∷ 90000 ∷ 100000 ∷ 110000 ∷ 120000
    ∷ 130000 ∷ 140000 ∷ 150000 ∷ 160000 ∷ 170000 ∷ 180000 ∷ 190000 ∷ 200000 ∷ 210000 ∷ []

-- The first twenty-one captures are not compared.
abbrev warmed : State
warmed = record initial { us = 210000; us_old = 200000; i = 21; start = false }

edges-warmed : captures edges initial ≡ some warmed
unfolding capture_irq
edges-warmed = refl

warmed-Reach : Reach initial warmed
warmed-Reach = captures-Reach edges initial initial warmed here edges-warmed

warmed-compares : compares 220005 warmed ≡ true
unfolding compares
warmed-compares = refl

compares-Outputs_example : Outputs warmed
compares-Outputs_example = compares-Outputs 220005 warmed-Reach warmed-compares

capture_irq-Pulse_example : capture_irq 220005 warmed ≢ none
capture_irq-Pulse_example =
    capture_irq-Pulse 220005 10000 warmed-Reach (inl refl) (inl (omega arith))

-- In the middle of a change an interrupt finds `crit` set, and does not compare.
changing : (compares 220005 (pwm_task (pos 0) (pwm_task (pos 0) warmed))) ≡ false
unfolding compares pwm_task pwm_round
changing = refl

-- ===== src/Pwmtest/Interleaving.antt =====
-- What holds wherever the interrupt meets `pwmTask`.
use testsystem.Prelude.{
  ℕ, ◌+◌, ◌≤◌, ◌≡◌, refl, subst, ◌-◌, none, Bool, true, false, Option, some, arith, ltb,
  if◌then◌else◌,
}
use testsystem.Prelude.Int.{ℤ}
use testsystem.Prelude.Task.{is_zero}
use testsystem.Ramp.{Ramp, pwm_round}
use testsystem.Ramp.Pwm
use testsystem.Ramp.Pwm.{pwm_round-Inv}
use testsystem.Pwmtest.{
  Pc, delayed, entered, adjusted, set_0, set_1, set_2, stopped, State, initial, step_at, pwm_task,
  compares, fits, capture_irq,
}

-- A step of the task, or an interrupt that fails no assertion.
pub data Step (s : State) : State → Type 0 where
  task : (ret : ℤ) → Step s (pwm_task ret s)
  irq : (time : ℕ) {t : State} → capture_irq time s ≡ some t → Step s t

pub data Reach (s : State) : State → Type 0 where
  here : Reach s s
  next : {t u : State} → Reach s t → Step t u → Reach s u

-- Within one step of the loop.
abbrev pub Close : ℕ → ℕ → Type 0
Close a b = (a ≤ b + 500) × (b ≤ a + 500)

-- Outside the part that `crit` guards, the outputs have the duty cycle `n`.
pub record Outputs (s : State) : Type 0 where
  pub same_0 : s.duty_0 ≡ s.ramp.n
  pub same_1 : s.duty_1 ≡ s.ramp.n
  pub same_2 : s.duty_2 ≡ s.ramp.n

-- What `pwmTask` has done where it stands.
abbrev Done : Pc → State → Type 0
Done delayed s = Outputs s × (s.crit ≡ false) × Close s.before s.ramp.n
Done entered s = s.crit ≡ true
Done adjusted s = (s.crit ≡ true) × Close s.before s.ramp.n
Done set_0 s = (s.crit ≡ true) × (s.duty_0 ≡ s.ramp.n) × Close s.before s.ramp.n
Done set_1 s =
    (s.crit ≡ true) × (s.duty_0 ≡ s.ramp.n) × (s.duty_1 ≡ s.ramp.n) × Close s.before s.ramp.n
Done set_2 s =
    (s.crit ≡ true)
    × (s.duty_0 ≡ s.ramp.n)
    × (s.duty_1 ≡ s.ramp.n)
    × (s.duty_2 ≡ s.ramp.n)
    × Close s.before s.ramp.n
Done stopped s = s.crit ≡ true

pub record Inv (s : State) : Type 0 where
  pub range : Pwm.Inv s.ramp
  pub progress : Done s.pc s

pwm_round-Close : (r : Ramp) → Pwm.Inv r → Close r.n (pwm_round r).n
unfolding pwm_round
pwm_round-Close r h = ground arith

if-Inv : (b : Bool) (s t : State) → Inv s → Inv t → Inv (if b then s else t)
if-Inv true s t h k = h
if-Inv false s t h k = k

step_at-Inv : (pc : Pc) (ret : ℤ) (s : State) → Pwm.Inv s.ramp → Done pc s → Inv (step_at pc ret s)
unfolding step_at
step_at-Inv delayed ret s r d = record { range = r; progress = refl }
step_at-Inv entered ret s r d = record {
  range = pwm_round-Inv s.ramp r;
  progress = (d, pwm_round-Close s.ramp r);
}
step_at-Inv adjusted ret s r d =
    if-Inv (is_zero ret) _ _ (record { range = r; progress = (d.0, refl, d.1) })
      (record { range = r; progress = d.0 })
step_at-Inv set_0 ret s r d =
    if-Inv (is_zero ret) _ _ (record { range = r; progress = (d.0, d.1, refl, d.2) })
      (record { range = r; progress = d.0 })
step_at-Inv set_1 ret s r d =
    if-Inv (is_zero ret) _ _ (record { range = r; progress = (d.0, d.1, d.2, refl, d.3) })
      (record { range = r; progress = d.0 })
step_at-Inv set_2 ret s r d = record {
  range = r;
  progress = (record { same_0 = d.1; same_1 = d.2; same_2 = d.3 }, refl, d.4);
}
step_at-Inv stopped ret s r d = record { range = r; progress = d }

-- The interrupt changes nothing that the invariant is about.
Done-irq :
    (pc : Pc) (s : State) (us us_old i : ℕ) (start : Bool)
    → Done pc s
    → Done pc (record s { us = us; us_old = us_old; i = i; start = start })
Done-irq delayed s us us_old i start d =
    (record { same_0 = d.0.same_0; same_1 = d.0.same_1; same_2 = d.0.same_2 }, d.1, d.2)
Done-irq entered s us us_old i start d = d
Done-irq adjusted s us us_old i start d = d
Done-irq set_0 s us us_old i start d = d
Done-irq set_1 s us us_old i start d = d
Done-irq set_2 s us us_old i start d = d
Done-irq stopped s us us_old i start d = d

Inv-irq :
    (s : State) (us us_old i : ℕ) (start : Bool)
    → Inv s
    → Inv (record s { us = us; us_old = us_old; i = i; start = start })
Inv-irq s us us_old i start h = record {
  range = h.range;
  progress = Done-irq s.pc s us us_old i start h.progress;
}

abbrev Holds : Option State → Type 0
Holds none = Unit
Holds (some t) = Inv t

if-Holds : (b : Bool) (x y : Option State) → Holds x → Holds y → Holds (if b then x else y)
if-Holds true x y h k = h
if-Holds false x y h k = k

capture_irq-Holds : (time : ℕ) (s : State) → Inv s → Holds (capture_irq time s)
unfolding capture_irq
capture_irq-Holds time s h =
    if-Holds (compares time s) _ _
      (if-Holds (fits (time - s.us) s.ramp.n) _ _ (Inv-irq s time s.us s.i s.start h) tt)
      (if-Holds s.start _ _
        (Inv-irq s time s.us (s.i + 1) (if ltb 20 (s.i + 1) then false else true) h)
        (Inv-irq s time s.us s.i s.start h))

Step-Inv : {s t : State} → Step s t → Inv s → Inv t
unfolding pwm_task
Step-Inv {s} (task ret) h = step_at-Inv s.pc ret s h.range h.progress
Step-Inv {s} (irq time e) h = subst Holds e (capture_irq-Holds time s h)

pub Reach-Inv : {s t : State} → Inv s → Reach s t → Inv t
Reach-Inv h here = h
Reach-Inv h (next r st) = Step-Inv st (Reach-Inv h r)

pub initial-Inv : Inv initial
initial-Inv = record {
  range = ground arith;
  progress = (record { same_0 = refl; same_1 = refl; same_2 = refl }, refl, omega arith);
}

-- `crit` is down only in the delay.
Done-down : (pc : Pc) (s : State) → s.crit ≡ false → Done pc s → Outputs s × Close s.before s.ramp.n
Done-down delayed s e d = (d.0, d.2)
Done-down entered s e d = absurd (ground arith)
Done-down adjusted s e d = absurd (ground arith)
Done-down set_0 s e d = absurd (ground arith)
Done-down set_1 s e d = absurd (ground arith)
Done-down set_2 s e d = absurd (ground arith)
Done-down stopped s e d = absurd (ground arith)

pub compares-down : (time : ℕ) (s : State) → compares time s ≡ true → s.crit ≡ false
unfolding compares
compares-down time s e = ground arith

pub Inv-compares :
    (time : ℕ) (s : State) → Inv s → compares time s ≡ true → Outputs s × Close s.before s.ramp.n
Inv-compares time s h e = Done-down s.pc s (compares-down time s e) h.progress

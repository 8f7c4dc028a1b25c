-- ===== src/Pwmtest/Edges.antt =====
-- What `captureIRQ` accepts: the widths of pulses that the outputs can have.
use testsystem.Prelude.{
  ℕ, ◌+◌, ◌-◌, ◌%◌, ◌≤◌, ◌<◌, ◌≡◌, ◌≢◌, ◌⊎◌, ◌↔◌, inl, inr, refl, sym, ◌∙◌, subst, true, false,
  ◌&&◌, none, arith, leb, Bool-cases,
}
use testsystem.Ramp.{u64_mod}
use testsystem.Ramp.Pwm.{in_range}
use testsystem.Pwmtest.{State, initial, in_window, compares, fits, capture_irq}
use testsystem.Pwmtest.Interleaving.{
  Reach, Inv, Outputs, Close, Reach-Inv, initial-Inv, Inv-compares,
}

-- Whenever `captureIRQ` compares, wherever it interrupts `pwmTask`, all three outputs have the duty
-- cycle `n` that it compares with.
pub compares-Outputs : {s : State} (time : ℕ) → Reach initial s → compares time s ≡ true → Outputs s
compares-Outputs {s} time r e = (Inv-compares time s (Reach-Inv initial-Inv r) e).0

-- Two times that differ by at most 10.
abbrev pub Near : ℕ → ℕ → Type 0
Near a b = (a ≤ b + 10) × (b ≤ a + 10)

-- The time since the capture before is, up to 10, that between two edges of a pulse with duty cycle
-- `w` in a period of 20000.
abbrev pub Pulse : ℕ → ℕ → Type 0
Pulse w diff = Near diff w ⊎ Near (diff + w) 20000

in_window-eq :
    (width n : ℕ)
    → 1000 < n
    → n < 19000
    → in_window width n ≡ (leb (n - 510) width && leb width (n + 510))
in_window-eq width n lo hi = ground arith

-- More than MAX_DIFF away.
abbrev pub Far : ℕ → ℕ → Type 0
Far a b = (a + 510 < b) ⊎ (b + 510 < a)

abbrev pub rest : ℕ → ℕ
rest diff = (20000 + u64_mod - diff) % u64_mod

in_window-Near :
    (width w n : ℕ) → 1000 < n → n < 19000 → Close w n → Near width w → in_window width n ≡ true
in_window-Near width w n lo hi c p = in_window-eq width n lo hi ∙ ground arith

in_window_iff : (width n : ℕ) → 1000 < n → n < 19000 → (in_window width n ≡ false) ↔ Far width n
in_window_iff width n lo hi =
    let e = in_window-eq width n lo hi in (λ h. ground (arith, e, h), λ h. e ∙ ground arith)

rest-Far :
    (diff n : ℕ) → 1000 < n → n < 19000 → diff < u64_mod → Far (rest diff) n ↔ Far (diff + n) 20000
rest-Far diff n lo hi l = (λ h. ground arith, λ h. ground arith)

fits-Pulse : (n w diff : ℕ) → 1000 < n → n < 19000 → Close w n → Pulse w diff → fits diff n ≡ true
unfolding fits
fits-Pulse n w diff lo hi c (inl p) = simp (in_window-Near diff w n lo hi c p) refl
fits-Pulse n w diff lo hi c (inr p) =
    ground (arith, in_window-Near (rest diff) w n lo hi c (omega arith))

fits_iff :
    (diff n : ℕ)
    → 1000 < n
    → n < 19000
    → diff < u64_mod
    → (fits diff n ≡ false) ↔ (Far diff n × Far (diff + n) 20000)
unfolding fits
fits_iff diff n lo hi l =
    let first = in_window_iff diff n lo hi in
    let second = in_window_iff (rest diff) n lo hi in
    let turned = rest-Far diff n lo hi l in
    (
      λ e. (first.0 (ground (arith, e)), turned.0 (second.0 (ground (arith, e)))),
      λ (a, b). ground (arith, first.1 a, second.1 (turned.1 b)),
    )

capture_irq-fits :
    (time : ℕ) (s : State)
    → compares time s ≡ true
    → (capture_irq time s ≡ none) ↔ (fits (time - s.us) s.ramp.n ≡ false)
unfolding capture_irq
capture_irq-fits time s c = (λ e. ground (arith, c, e), λ e. ground (arith, c, e))

compares-range :
    (time : ℕ) (s : State) → Inv s → compares time s ≡ true → (1000 < s.ramp.n) × (s.ramp.n < 19000)
unfolding compares
compares-range time s h e = let l = in_range s.ramp h.range in ground arith

-- Wherever `captureIRQ` interrupts `pwmTask`, a capture whose distance from the one before is, up to
-- 10, that of two edges of a pulse with the present duty cycle or the one before it fails no
-- assertion.
pub capture_irq-Pulse :
    {s : State} (time w : ℕ)
    → Reach initial s
    → (w ≡ s.ramp.n) ⊎ (w ≡ s.before)
    → Pulse w (time - s.us)
    → capture_irq time s ≢ none
unfolding capture_irq
capture_irq-Pulse {s} time w r duty p e = elim (Bool-cases (compares time s)) [
  | inl c ↦
      let inv = Reach-Inv initial-Inv r in
      let range = compares-range time s inv c in
      let close = (Inv-compares time s inv c).1 in
      let passes = fits-Pulse s.ramp.n w (time - s.us) range.0 range.1 (ground arith) p in
      ground (arith, passes, c, e)
  | inr c ↦ ground (arith, c, e)
]

-- Wherever `captureIRQ` compares, the assertion fails exactly if the time since the capture before is
-- more than 510 away both from the duty cycle of the outputs and from the rest of the period.
pub capture_irq-none_iff :
    {s : State} (time : ℕ)
    → Reach initial s
    → compares time s ≡ true
    → time < u64_mod
    → (capture_irq time s ≡ none)
      ↔ (Far (time - s.us) s.duty_0 × Far (time - s.us + s.duty_0) 20000)
capture_irq-none_iff {s} time r c l =
    let inv = Reach-Inv initial-Inv r in
    let range = compares-range time s inv c in
    let fails = capture_irq-fits time s c in
    let far = fits_iff (time - s.us) s.ramp.n range.0 range.1 (omega (arith, l)) in
    let same = (Inv-compares time s inv c).0.same_0 in
    subst (λ d. (capture_irq time s ≡ none) ↔ (Far (time - s.us) d × Far (time - s.us + d) 20000))
      (sym same) (λ e. far.0 (fails.0 e), λ p. fails.1 (far.1 p))

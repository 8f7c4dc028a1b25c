-- ===== src/Capture/Gaps.antt =====
-- The printed numbers are the times that passed between the captures.
use testsystem.Prelude.{ℕ, ◌+◌, ◌%◌, ◌<◌, ◌≡◌, refl, ap, ◌∙◌, List, [], ◌∷◌, All, arith}
use testsystem.Capture.{stm32_callback, am57xx_callback, printed, pwm_period, u64_mod}

-- What a counter that starts again after a period reads at the ends of gaps of time.
abbrev pub readings : ℕ → ℕ → List ℕ → List ℕ
readings period now [] = []
readings period now (gap ∷ gaps) = (now + gap) % period ∷ readings period (now + gap) gaps

-- A callback measures a gap below the period, and keeps the time.
Measures : (ℕ → ℕ → ℕ × ℕ) → ℕ → Type 0
Measures callback period =
    (now gap : ℕ)
    → gap < period
    → callback ((now + gap) % period) (now % period) ≡ (gap, (now + gap) % period)

printed-readings :
    (callback : ℕ → ℕ → ℕ × ℕ) (period : ℕ)
    → Measures callback period
    → (gaps : List ℕ) (now : ℕ) → All (λ g. g < period) gaps
    → printed callback (now % period) (readings period now gaps) ≡ gaps
unfolding printed Measures
printed-readings callback period m [] now h = refl
printed-readings callback period m (gap ∷ gaps) now h =
    let e = m now gap h.0 in
    ap (λ r. r.0 ∷ printed callback r.1 (readings period (now + gap) gaps)) e
    ∙ ap (λ gs. gap ∷ gs) (printed-readings callback period m gaps (now + gap) h.1)

stm32_callback-Measures : Measures stm32_callback 1000000
unfolding Measures stm32_callback
stm32_callback-Measures now gap h = ground arith

am57xx_callback-Measures : Measures am57xx_callback 18446744073709551616
unfolding Measures am57xx_callback
am57xx_callback-Measures now gap h = ground arith

-- From the start on, where `oldtime` is 0 as the counter is, the STM32 prints the gaps between
-- captures, as long as each is below the period of the counter.
pub stm32-gaps :
    (gaps : List ℕ)
    → All (λ g. g < pwm_period) gaps
    → printed stm32_callback 0 (readings pwm_period 0 gaps) ≡ gaps
stm32-gaps gaps h = printed-readings stm32_callback 1000000 stm32_callback-Measures gaps 0 h

-- From the start on, the AM57xx prints the gaps between captures, across every wrap of a counter of
-- 64 bits, as long as each is below 2 ^ 64.
pub am57xx-gaps :
    (gaps : List ℕ)
    → All (λ g. g < u64_mod) gaps
    → printed am57xx_callback 0 (readings u64_mod 0 gaps) ≡ gaps
am57xx-gaps gaps h =
    printed-readings am57xx_callback 18446744073709551616 am57xx_callback-Measures gaps 0 h

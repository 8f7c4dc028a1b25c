-- ===== src/Capture/Tests.antt =====
-- Captures across a wrap of the counter.
use testsystem.Prelude.{ℕ, ◌≡◌, refl, List, [], ◌∷◌}
use testsystem.Capture.{stm32_callback, printed}

-- The third capture is behind the wrap.
three_captures :
    printed stm32_callback 0 (400000 ∷ 900000 ∷ 100000 ∷ []) ≡ 400000 ∷ 500000 ∷ 200000 ∷ []
unfolding printed stm32_callback
three_captures = refl

abbrev three_gaps : List ℕ
three_gaps = 400000 ∷ 500000 ∷ 200000 ∷ []

abbrev long_gaps : List ℕ
long_gaps = 18446744073709551000 ∷ 1000 ∷ []

-- ===== src/Capture.antt =====
-- The capture callbacks of src/stm32/timertest.c and src/am57xx/timertest.c: each prints the time
-- since the capture before. The number that is printed is the first component of the result, the new
-- `oldtime` the second. Times are `uint64_t`.
pub mod Gaps
mod Tests
use testsystem.Prelude.{ℕ, ◌+◌, ◌-◌, ◌%◌, List, [], ◌∷◌, ltb, if◌then◌else◌}

abbrev pub u64_mod : ℕ
u64_mod = 18446744073709551616

abbrev pub sub64 : ℕ → ℕ → ℕ
sub64 a b = (a + u64_mod - b) % u64_mod

abbrev pub pwm_period : ℕ
pwm_period = 1000000

-- `capture_callback` on the STM32, whose counter starts again after a period.
unfoldable pub stm32_callback : ℕ → ℕ → ℕ × ℕ
stm32_callback time oldtime = (
  if ltb time oldtime then (sub64 pwm_period oldtime + time) % u64_mod else sub64 time oldtime,
  time,
)

-- `capture_callback` on the AM57xx.
unfoldable pub am57xx_callback : ℕ → ℕ → ℕ × ℕ
am57xx_callback time oldtime = (sub64 time oldtime, time)

-- The numbers printed for a sequence of captures.
unfoldable pub printed : (ℕ → ℕ → ℕ × ℕ) → ℕ → List ℕ → List ℕ
printed callback oldtime [] = []
printed callback oldtime (time ∷ times) =
    (callback time oldtime).0 ∷ printed callback (callback time oldtime).1 times

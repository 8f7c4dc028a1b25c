-- ===== src/Ramp/Tests.antt =====
-- Runs of the ramps, and their theorems at concrete inputs.
use testsystem.Prelude.{◌≡◌, refl, true, false}
use testsystem.Ramp.{led_round, led_initial, rounds}

-- Twenty-five rounds lead from the middle to the top, and fifty more to the bottom.
led_run :
    (rounds led_round 25 led_initial ≡ record { up = false; n = 20000 })
    × (rounds led_round 75 led_initial ≡ record { up = true; n = 0 })
unfolding rounds led_round
led_run = (refl, refl)

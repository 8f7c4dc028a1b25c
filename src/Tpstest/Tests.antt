-- ===== src/Tpstest/Tests.antt =====
-- A chip of which one voltage cannot be measured, and the theorem on it.
use testsystem.Prelude.{ℕ, ◌≡◌, refl, ap, Bool, true, Option, none, some, map, ◌==◌, not}
use testsystem.Prelude.Int.{pos}
use testsystem.Prelude.Task.{Ensures}
use testsystem.Tpstest.{Channel, tps_vdd5, tps_vcp, channels, Float, Tps, tpstest_round}
use testsystem.Tpstest.Voltages.{Works, tpstest_round-voltages}

-- Volts, where none is NAN.
abbrev unequal : Option ℕ → Option ℕ → Bool
unequal none y = true
unequal (some x) none = true
unequal (some x) (some y) = not (x == y)

abbrev volts : Float (Option ℕ)
volts = record { nan = none; differs = unequal }

unequal-nan : (x : Option ℕ) → unequal x none ≡ true
unequal-nan none = refl
unequal-nan (some x) = refl

abbrev voltage : Channel → Option ℕ
voltage tps_vdd5 = some 5
voltage tps_vcp = none
voltage channel = some 3

-- The world is the selected channel.
abbrev chip : Tps Channel (Option ℕ)
chip = record { tps_mux = λ channel w. (pos 0, channel); tps_diag = λ channel w. (voltage w, w) }

abbrev chip_works : Works chip voltage
chip_works = record {
  selected = λ w. w;
  selects = λ channel w. (tt, channel, refl, refl);
  measures = λ channel w e. ap voltage e;
}

tpstest_round-voltages_example :
    Ensures
      (tpstest_round volts chip tps_vdd5)
      (λ lines w'. lines ≡ map (λ channel. (channel, voltage channel)) channels)
tpstest_round-voltages_example =
    tpstest_round-voltages volts chip voltage chip_works unequal-nan tps_vdd5

-- ===== src/Tpstest.antt =====
-- The test of the power supply in src/vf610/tpstest.c: a round of `tpstest_task`.
-- The driver is a parameter, and so are the type `float`, the value NAN and the comparison `!=`. The
-- eight measurements in a row are recursion on their channels; the delays are left out.
pub mod Voltages
mod Tests
use testsystem.Prelude.{Bool, List, [], ◌∷◌}
use testsystem.Prelude.Int.{ℤ}
use testsystem.Prelude.Task.{Task, done, ◌>>=◌, ◌>>◌, pure, assert, and_then, checked}

-- The values of the multiplexer.
pub data Channel : Type 0 where
  tps_vdd5 tps_vdd6 tps_vcp tps_vsout1 tps_vbat_safing tps_vbat tps_main_bg tps_vmon_bg : Channel

abbrev pub channels : List Channel
channels =
    tps_vdd5 ∷ tps_vdd6 ∷ tps_vcp ∷ tps_vsout1 ∷ tps_vbat_safing ∷ tps_vbat ∷ tps_main_bg
    ∷ tps_vmon_bg ∷ []

pub record Float (F : Type 0) : Type 0 where
  pub nan : F
  pub differs : F → F → Bool

pub record Tps (W F : Type 0) : Type 0 where
  pub tps_mux : Channel → W → ℤ × W
  pub tps_diag : Channel → W → F × W

module _ {W F : Type 0} (float : Float F) (tps : Tps W F) where
  -- A measurement, with the line that it prints.
  unfoldable pub measure : Channel → Task W (Channel × F)
  measure channel = do
    λ w. checked (tps.tps_mux channel w)
    val ← λ w. done (tps.tps_diag channel w).0 (tps.tps_diag channel w).1
    assert (float.differs val float.nan)
    pure (channel, val)

  unfoldable pub measure_all : List Channel → Task W (List (Channel × F))
  measure_all [] = pure []
  measure_all (channel ∷ rest) = do
    line ← measure channel
    lines ← measure_all rest
    pure (line ∷ lines)

  unfoldable pub tpstest_round : Task W (List (Channel × F))
  tpstest_round = measure_all channels

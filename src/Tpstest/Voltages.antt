-- ===== src/Tpstest/Voltages.antt =====
-- What a round prints, and that the assertion on NAN lets every value pass.
use testsystem.Prelude.{◌≡◌, refl, ap, true, List, [], ◌∷◌, map}
use testsystem.Prelude.Task.{Ensures, Ensures-and_then, assert-Ensures, assert, checked}
use testsystem.Tpstest.{Channel, channels, Float, Tps, measure, measure_all, tpstest_round}

-- A chip that works: the multiplexer selects a channel, and the diagnosis of the selected channel is
-- its voltage, or whatever the driver returns for it, which may be NAN.
pub record Works {W F : Type 0} (tps : Tps W F) (voltage : Channel → F) : Type 0 where
  pub selected : W → Channel
  pub selects :
      (channel : Channel) (w : W)
      → Ensures (checked (tps.tps_mux channel w)) (λ _ w'. selected w' ≡ channel)
  pub measures :
      (channel : Channel) (w : W)
      → selected w ≡ channel
      → (tps.tps_diag channel w).0 ≡ voltage channel

module _ {W F : Type 0} (float : Float F) (tps : Tps W F) (voltage : Channel → F)
    (works : Works tps voltage) (unequal : (x : F) → float.differs x float.nan ≡ true) where
  measure-voltage :
      (channel : Channel) (w : W)
      → Ensures (measure float tps channel w) (λ line w'. line ≡ (channel, voltage channel))
  unfolding measure
  measure-voltage channel w =
      Ensures-and_then (checked (tps.tps_mux channel w)) _ Q (works.selects channel w) (λ _ w1 s.
        let (val, w2) = tps.tps_diag channel w1 in
        Ensures-and_then (assert (float.differs val float.nan) w2) _ Q
          (assert-Ensures (float.differs val float.nan) w2 (λ _ _. Unit {0}) (unequal val) tt)
          (λ _ w3 _.
            ((channel, val), w3, refl, ap (λ v. (channel, v)) (works.measures channel w1 s))))
    where
      Q : Channel × F → W → Type 0
      Q line w' = line ≡ (channel, voltage channel)

  abbrev Printed : List Channel → List (Channel × F) → W → Type 0
  Printed cs lines w' = lines ≡ map (λ channel. (channel, voltage channel)) cs

  measure_all-voltages :
      (cs : List Channel) (w : W) → Ensures (measure_all float tps cs w) (Printed cs)
  unfolding measure_all
  measure_all-voltages [] w = ([], w, refl, refl)
  measure_all-voltages (channel ∷ cs) w =
      Ensures-and_then (measure float tps channel w) _ (Printed (channel ∷ cs))
        (measure-voltage channel w)
        (λ line w1 e.
          Ensures-and_then (measure_all float tps cs w1) _ (Printed (channel ∷ cs))
            (measure_all-voltages cs w1) (λ lines w2 f. (line ∷ lines, w2, refl, simp (e, f) refl)))

  -- On a chip that works, and where NAN differs from every value, as IEEE 754 has it, a round passes
  -- all assertions and prints the voltage of each of the eight channels, in order, even those that
  -- are NAN.
  pub tpstest_round-voltages :
      (w : W)
      → Ensures
          (tpstest_round float tps w)
          (λ lines w'. lines ≡ map (λ channel. (channel, voltage channel)) channels)
  unfolding tpstest_round
  tpstest_round-voltages w = measure_all-voltages channels w

-- ===== src/Phytest/Negotiation.antt =====
-- The task of src/imx6/phytest.c: `phytest_task`, up to the endless loop at its end.
-- The driver of the phys is a parameter. A phy is a number and `none` is NULL. The wait for the end of
-- a negotiation has a number of turns.
use testsystem.Prelude.{
  ℕ, zero, suc, ◌≤◌, ◌<◌, ◌≡◌, refl, sym, ap, ◌∙◌, true, false, Option, none, some, List, [], ◌∷◌,
  ◌++◌, map, append-nil, append_assoc, arith, if◌then◌else◌,
}
use testsystem.Prelude.Int.{ℤ, is_negative}
use testsystem.Prelude.Task.{
  Outcome, done, asserted, waiting, Task, ◌>>=◌, ◌>>◌, pure, is_zero, Ensures, Ensures-and_then,
}

-- `CONFIG_ASSERT(ret >= 0)` behind a call, with or without a result.
abbrev pub not_negative : {W : Type 0} → ℤ × W → Outcome W (Unit {0})
not_negative (ret, w) = if is_negative ret then asserted else done tt w

abbrev not_negative_result : {W A : Type 0} → ℤ × A × W → Outcome W A
not_negative_result (ret, a, w) = if is_negative ret then asserted else done a w

pub record Driver (W : Type 0) : Type 0 where
  pub phy_scan : W → ℤ × List (Option ℕ) × W
  pub phy_soft_reset : ℕ → W → ℤ × W
  pub phy_config_init : ℕ → W → ℤ × W
  pub phy_read_status : ℕ → W → ℤ × W
  pub phy_config_aneg : ℕ → W → ℤ × W
  pub phy_aneg_done : ℕ → W → ℤ × W

module _ {W : Type 0} (driver : Driver W) where
  -- The wait goes on as long as `phy_aneg_done` returns 0, so an error ends it too.
  unfoldable pub wait_aneg : ℕ → ℕ → Task W (Unit {0})
  wait_aneg zero phy w = waiting
  wait_aneg (suc n) phy w =
      let (ret, w') = driver.phy_aneg_done phy w in
      let rest = wait_aneg n phy w' in if is_zero ret then rest else done tt w'

  unfoldable pub test_phy : ℕ → Option ℕ → Task W (Unit {0})
  test_phy turns none = λ w. asserted
  test_phy turns (some phy) = do
    λ w. not_negative (driver.phy_soft_reset phy w)
    λ w. not_negative (driver.phy_config_init phy w)
    λ w. not_negative (driver.phy_read_status phy w)
    λ w. not_negative (driver.phy_config_aneg phy w)
    wait_aneg turns phy

  unfoldable pub test_phys : ℕ → List (Option ℕ) → Task W (Unit {0})
  test_phys turns [] = pure tt
  test_phys turns (phy ∷ phys) = test_phy turns phy >> test_phys turns phys

  unfoldable pub phytest_task : ℕ → Task W (Unit {0})
  phytest_task turns = do phys ← λ w. not_negative_result (driver.phy_scan w); test_phys turns phys

-- Phys that work: the scan finds them, the calls succeed, and a negotiation is over when
-- `phy_aneg_done` has been called at most `bound` times in vain.
pub record Works {W : Type 0} (driver : Driver W) (found : List ℕ) (bound : ℕ) : Type 0 where
  pub pending : W → ℕ
  -- The phys that have negotiated.
  pub linked : W → List ℕ
  pub scans :
      (w : W)
      → Ensures
          (not_negative_result (driver.phy_scan w))
          (λ phys w'. (phys ≡ map some found) × (linked w' ≡ linked w))
  pub resets :
      (phy : ℕ) (w : W)
      → Ensures (not_negative (driver.phy_soft_reset phy w)) (λ _ w'. linked w' ≡ linked w)
  pub configures :
      (phy : ℕ) (w : W)
      → Ensures (not_negative (driver.phy_config_init phy w)) (λ _ w'. linked w' ≡ linked w)
  pub reads :
      (phy : ℕ) (w : W)
      → Ensures (not_negative (driver.phy_read_status phy w)) (λ _ w'. linked w' ≡ linked w)
  pub restarts :
      (phy : ℕ) (w : W)
      → Ensures
          (not_negative (driver.phy_config_aneg phy w))
          (λ _ w'. (pending w' ≤ bound) × (linked w' ≡ linked w))
  pub goes_on :
      (phy n : ℕ) (w : W)
      → pending w ≡ suc n
      → (is_zero (driver.phy_aneg_done phy w).0 ≡ true)
        × (pending (driver.phy_aneg_done phy w).1 ≡ n)
        × (linked (driver.phy_aneg_done phy w).1 ≡ linked w)
  pub ends :
      (phy : ℕ) (w : W)
      → pending w ≡ 0
      → (is_zero (driver.phy_aneg_done phy w).0 ≡ false)
        × (linked (driver.phy_aneg_done phy w).1 ≡ linked w ++ (phy ∷ []))

module _ {W : Type 0} (driver : Driver W) (found : List ℕ) (bound : ℕ)
    (works : Works driver found bound) (turns : ℕ) (enough : bound < turns) where
  wait_aneg-linked :
      (phy n left : ℕ) (w : W)
      → works.pending w ≡ left
      → left < n
      → Ensures (wait_aneg driver n phy w) (λ _ w'. works.linked w' ≡ works.linked w ++ (phy ∷ []))
  unfolding wait_aneg
  wait_aneg-linked phy zero left w e h = absurd (omega (arith, h))
  wait_aneg-linked phy (suc n) zero w e h =
      let (over, more) = works.ends phy w e in
      rw over (tt, (driver.phy_aneg_done phy w).1, refl, more)
  wait_aneg-linked phy (suc n) (suc left) w e h =
      let (vain, rest, same) = works.goes_on phy left w e in
      rw (vain, sym same)
        (wait_aneg-linked phy n left (driver.phy_aneg_done phy w).1 rest (omega (arith, h)))

  test_phy-linked :
      (phy : ℕ) (w : W)
      → Ensures
          (test_phy driver turns (some phy) w)
          (λ _ w'. works.linked w' ≡ works.linked w ++ (phy ∷ []))
  unfolding test_phy
  test_phy-linked phy w =
      Ensures-and_then (not_negative (driver.phy_soft_reset phy w)) _ Q (works.resets phy w)
        (λ _ w1 e1.
          Ensures-and_then (not_negative (driver.phy_config_init phy w1)) _ Q
            (works.configures phy w1)
            (λ _ w2 e2.
              Ensures-and_then (not_negative (driver.phy_read_status phy w2)) _ Q
                (works.reads phy w2)
                (λ _ w3 e3.
                  Ensures-and_then (not_negative (driver.phy_config_aneg phy w3)) _ Q
                    (works.restarts phy w3)
                    (λ _ w4 (b, e4).
                      rw (sym e1, sym e2, sym e3, sym e4)
                        (wait_aneg-linked phy turns (works.pending w4) w4 refl
                          (omega (arith, b, enough)))))))
    where
      Q : Unit {0} → W → Type 0
      Q _ w' = works.linked w' ≡ works.linked w ++ (phy ∷ [])

  test_phys-linked :
      (phys : List ℕ) (w : W)
      → Ensures
          (test_phys driver turns (map some phys) w)
          (λ _ w'. works.linked w' ≡ works.linked w ++ phys)
  unfolding test_phys
  test_phys-linked [] w = (tt, w, refl, sym (append-nil (works.linked w)))
  test_phys-linked (phy ∷ phys) w =
      Ensures-and_then (test_phy driver turns (some phy) w) _ Q (test_phy-linked phy w) (λ _ w1 e.
        let (u, w2, d, f) = test_phys-linked phys w1 in
        (u, w2, d, f ∙ ap (λ l. l ++ phys) e ∙ append_assoc (works.linked w) (phy ∷ []) phys))
    where
      Q : Unit {0} → W → Type 0
      Q _ w' = works.linked w' ≡ works.linked w ++ (phy ∷ phys)

  -- With phys that work, and more turns than a negotiation takes at most, `phytest_task` passes its
  -- assertions and gets to its end, where every phy that was found has negotiated, once and in order.
  pub phytest_task-linked :
      (w : W)
      → Ensures (phytest_task driver turns w) (λ _ w'. works.linked w' ≡ works.linked w ++ found)
  unfolding phytest_task
  phytest_task-linked w =
      Ensures-and_then (not_negative_result (driver.phy_scan w)) _ Q (works.scans w)
        (λ phys w1 (e, same). rw (e, sym same) (test_phys-linked found w1))
    where
      Q : Unit {0} → W → Type 0
      Q _ w' = works.linked w' ≡ works.linked w ++ found

-- ===== src/Phytest/Tests.antt =====
-- A read of a register, and the theorems at concrete inputs.
use testsystem.Prelude.{
  ℕ, zero, suc, ◌+◌, ◌-◌, ◌*◌, ◌/◌, ◌≤◌, ◌<◌, ◌≡◌, ◌↔◌, refl, true, false, some, List, [], ◌∷◌,
  ◌++◌, arith,
}
use testsystem.Phytest.{enet1_handler, mdio_read_start, mdio_read_end, read_frame, mii_speed}
use testsystem.Phytest.Interface.{
  System, has_read, Reach, here, next, starts_read, transfers, interrupts, reads, initial,
}
use testsystem.Phytest.Reads.{IsCurrent, Reach-IsCurrent}
use testsystem.Phytest.Stale.{LateReach, waiting, early, early-LateReach}
use testsystem.Phytest.Clock.{mii_speed_iff}
use testsystem.Phytest.Negotiation.{Driver, Works, phytest_task, phytest_task-linked}
use testsystem.Prelude.Int.{ℤ, pos}
use testsystem.Prelude.Task.{is_zero, Ensures}

-- The phy 1 holds 100 + n in its register n.
abbrev phy_regs : ℕ → ℕ → ℕ
phy_regs id addr = 100 * id + addr

abbrev reset : System
reset = initial (read_frame 0 0) phy_regs

abbrev one_read : System
one_read = record reset {
  pc = has_read 1 2 102;
  mac = record { mii = false; eir_mii = false; mmfr = record (read_frame 1 2) { value = 102 } };
}

one_read-Reach : Reach reset one_read
unfolding mdio_read_start mdio_read_end enet1_handler
one_read-Reach =
    next (next (next (next here (starts_read 1 2 tt)) (transfers refl)) interrupts)
      (reads 1 2 102 _ refl refl)

Reach-IsCurrent_example : IsCurrent one_read.pc one_read.regs
Reach-IsCurrent_example = Reach-IsCurrent (read_frame 0 0) phy_regs one_read-Reach

early-LateReach_example : LateReach (waiting 1 2 phy_regs) (early 1 3 phy_regs)
early-LateReach_example = early-LateReach 1 2 1 3 phy_regs

-- A clock of 66 MHz.
mii_speed_iff_example :
    (mii_speed (λ n d. (n + d - 1) / d) 66000000 ≡ some 13)
    ↔ ((13 ≤ 63) × (2 * 13 * 2500000 < 66000000) × (66000000 ≤ 2 * (13 + 1) * 2500000))
mii_speed_iff_example =
    mii_speed_iff (λ n d. (n + d - 1) / d) 66000000 13 (λ n d h. refl) (omega arith)

-- Phys that negotiate in two polls. The world is the polls left and the phys that have negotiated.
abbrev polled : ℕ → ℕ → List ℕ → ℤ × (ℕ × List ℕ)
polled phy zero linked = (pos 1, (0, linked ++ (phy ∷ [])))
polled phy (suc n) linked = (pos 0, (n, linked))

abbrev two_phys : Driver (ℕ × List ℕ)
two_phys = record {
  phy_scan = λ w. (pos 0, some 1 ∷ some 5 ∷ [], w);
  phy_soft_reset = λ phy w. (pos 0, w);
  phy_config_init = λ phy w. (pos 0, w);
  phy_read_status = λ phy w. (pos 0, w);
  phy_config_aneg = λ phy w. (pos 0, (2, w.1));
  phy_aneg_done = λ phy w. polled phy w.0 w.1;
}

polled-goes_on :
    (phy pending n : ℕ) (linked : List ℕ)
    → pending ≡ suc n
    → (is_zero (polled phy pending linked).0 ≡ true)
      × ((polled phy pending linked).1.0 ≡ n)
      × ((polled phy pending linked).1.1 ≡ linked)
polled-goes_on phy zero n linked e = absurd (omega (arith, e))
polled-goes_on phy (suc m) n linked e = (refl, omega (arith, e), refl)

polled-ends :
    (phy pending : ℕ) (linked : List ℕ)
    → pending ≡ 0
    → (is_zero (polled phy pending linked).0 ≡ false)
      × ((polled phy pending linked).1.1 ≡ linked ++ (phy ∷ []))
polled-ends phy zero linked e = (refl, refl)
polled-ends phy (suc m) linked e = absurd (omega (arith, e))

abbrev two_phys_work : Works two_phys (1 ∷ 5 ∷ []) 2
two_phys_work = record {
  pending = λ w. w.0;
  linked = λ w. w.1;
  scans = λ w. (some 1 ∷ some 5 ∷ [], w, refl, (refl, refl));
  resets = λ phy w. (tt, w, refl, refl);
  configures = λ phy w. (tt, w, refl, refl);
  reads = λ phy w. (tt, w, refl, refl);
  restarts = λ phy w. (tt, (2, w.1), refl, (omega arith, refl));
  goes_on = λ phy n w e. polled-goes_on phy w.0 n w.1 e;
  ends = λ phy w e. polled-ends phy w.0 w.1 e;
}

phytest_task-linked_example :
    Ensures (phytest_task two_phys 3 (0, [])) (λ _ w'. w'.1 ≡ [] ++ (1 ∷ 5 ∷ []))
phytest_task-linked_example =
    phytest_task-linked two_phys (1 ∷ 5 ∷ []) 2 two_phys_work 3 (omega arith) (0, [])

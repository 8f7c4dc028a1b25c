-- ===== src/Phytest/Clock.antt =====
-- The clock of the MDIO interface.
use testsystem.Prelude.{ℕ, ◌+◌, ◌-◌, ◌*◌, ◌/◌, ◌^◌, ◌≤◌, ◌<◌, ◌≡◌, ◌↔◌, some, arith}
use testsystem.Phytest.{mii_speed}

-- A division of numbers that are not 0, rounded up.
abbrev pub RoundsUp : (ℕ → ℕ → ℕ) → Type 0
RoundsUp div_round_up = (n d : ℕ) → 0 < d → div_round_up n d ≡ (n + d - 1) / d

-- For a clock of the peripherals that 32 bits hold: `phytest_init` passes its assertion with the
-- field MII_SPEED set to `m` exactly if `m` is the least divider, up to 63, for which the interface
-- runs at 2.5 MHz at most, its clock being that of the peripherals over 2 * (m + 1).
pub mii_speed_iff :
    (div_round_up : ℕ → ℕ → ℕ) (speed m : ℕ)
    → RoundsUp div_round_up
    → speed < 2 ^ 32
    → (mii_speed div_round_up speed ≡ some m)
      ↔ ((m ≤ 63) × (2 * m * 2500000 < speed) × (speed ≤ 2 * (m + 1) * 2500000))
unfolding mii_speed
mii_speed_iff div_round_up speed m rounds l =
    let e = rounds speed 5000000 (omega arith) in
    (λ h. ground (arith, e, h), λ h. ground (arith, e, h))

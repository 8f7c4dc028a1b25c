-- ===== src/Rgb/Periods.antt =====
-- The times that the light asks the timer for.
use testsystem.Prelude.{ℕ, suc, ◌≡◌, refl, true, false, none, arith, if◌then◌else◌}
use testsystem.Prelude.Int.{ℤ}
use testsystem.Rgb.{
  s32k_irqhandle, Float, Rgb, s32k_adjust, is_zero, initial, shown, advance, hold, next_colour,
  request, irqhandle, interrupts, drive,
}
use testsystem.Rgb.Cycle.{Laws}

module _ (f : Float) (laws : Laws f) where
  open f use {F}

  on-hold : (s : Rgb F) (n1 : F) → (hold f n1 s).on ≡ s.on
  unfolding hold next_colour
  on-hold s n1 = ground arith

  on-shown : (s : Rgb F) → (shown f s).on ≡ s.on
  unfolding shown advance
  on-shown s =
      let s1 : Rgb F = record s { levels = drive s.on s.rgb_pins s.levels } in
      ground (arith, on-hold s1 (if s.up then f.plus s.n else f.minus s.n))

  first_one : (shown f (initial f)).n ≡ f.one
  unfolding shown advance hold initial
  first_one = simp laws.start_above refl

  first_on : (shown f (initial f)).on ≡ true
  unfolding initial
  first_on = on-shown (initial f)

  first_request : request f s32k_adjust (shown f (initial f)) ≡ 0
  unfolding request
  first_request = simp (first_on, first_one) laws.time_one

  -- On the S32K the first interrupt asks for a time of 0. A timer that refuses it stops the program
  -- there.
  pub s32k-refused :
      (timer : ℕ → ℤ) (k : ℕ)
      → is_zero (timer 0) ≡ false
      → interrupts f (s32k_irqhandle f timer) (suc k) (initial f) ≡ none
  unfolding interrupts irqhandle
  s32k-refused timer k h = simp (first_request, h) refl

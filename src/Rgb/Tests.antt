-- ===== src/Rgb/Tests.antt =====
-- The light over values in steps of 0.05, and its theorems at concrete inputs.
use testsystem.Prelude.{
  ℕ, ◌+◌, ◌-◌, ◌*◌, ◌≤◌, ◌<◌, ◌≡◌, refl, true, false, none, some, arith, leb, ◌==◌, if◌then◌else◌,
}
use testsystem.Prelude.Int.{ℤ, pos, negsuc}
use testsystem.Rgb.{
  kv4x_irqhandle, s32k_irqhandle, irqhandle, Float, Rgb, colour, drive, initial, next_colour, hold,
  advance, shown, request, interrupts, kv4x_adjust, s32k_adjust, pwm_interrupts, pwm_irqhandle,
  Levels,
}
use testsystem.Rgb.Cycle.{Inside, Laws}
use testsystem.Rgb.Dark.{SetOutside, AllSet, interrupts-IsDark}
use testsystem.Rgb.Pwm.{at_levels, duties_at, pwm_interrupts-interrupts}

abbrev twentieths : Float
twentieths = record {
  F = ℕ;
  one = 20;
  zero_f = 0;
  start = 210000;
  plus = λ n. n + 1;
  minus = λ n. n - 1;
  ge_one = λ n. leb 20 n;
  le_zero = λ n. n == 0;
  on_time = λ n. 21000 - n * 1050;
  duty = λ n. 21000 - n * 315;
}

below_one : (x : ℕ) → Inside twentieths x → leb 20 (x - 1) ≡ false
below_one x h = ground arith

above_zero : (x : ℕ) → Inside twentieths x → (x + 1 == 0) ≡ false
above_zero x h = ground arith

comes_down : (x : ℕ) → Inside twentieths x → (x - 1 == 0) ≡ false → x - 1 < x
comes_down x h e = ground arith

comes_up : (x : ℕ) → Inside twentieths x → leb 20 (x + 1) ≡ false → 20 - (x + 1) < 20 - x
comes_up x h e = ground arith

within : (x : ℕ) → Inside twentieths x → 21000 - x * 1050 ≤ 21000
within x h = omega arith

abbrev twentieths_laws : Laws twentieths
twentieths_laws = record {
  below = below_one;
  above = above_zero;
  steps_down = λ x. x;
  steps_up = λ x. 20 - x;
  down = comes_down;
  up = comes_up;
  start_above = refl;
  time_one = refl;
  times = within;
}

-- A timer that refuses the times 0 and MAX_TIME.
abbrev strict : ℕ → ℤ
strict p = if p == 0 then negsuc 0 else if leb 21000 p then negsuc 0 else pos 0

-- Within 42 interrupts the value comes up and down once.
abbrev behind_42 : Rgb ℕ
behind_42 =
    elim (interrupts twentieths (kv4x_irqhandle twentieths strict) 42 (initial twentieths)) [
      | none ↦ initial twentieths
      | some s ↦ s
    ]

first_change : (behind_42.rgb_pins ≡ 1) × (behind_42.state ≡ 1)
unfolding interrupts irqhandle shown advance hold next_colour request colour drive initial
    kv4x_adjust
first_change = (refl, refl)

-- Behind the first interrupt.
abbrev held : Rgb ℕ
held = record {
  rgb_pins = 1;
  state = 0;
  n = 20;
  up = false;
  on = false;
  levels = record { pin_0 = true; pin_1 = true; pin_2 = true };
}

interrupts-IsDark_example :
    SetOutside held.rgb_pins held.levels × (held.on ≡ false → AllSet held.levels)
unfolding interrupts irqhandle shown advance hold request drive initial kv4x_adjust
interrupts-IsDark_example = interrupts-IsDark twentieths kv4x_adjust strict 1 held refl

abbrev all_set : Levels
all_set = record { pin_0 = true; pin_1 = true; pin_2 = true }

pwm_interrupts-interrupts_example :
    (s1 : Rgb ℕ) × (s2 : Rgb ℕ) × (interrupts twentieths
        (s32k_irqhandle twentieths (λ p. pos 0))
        84
        (initial twentieths)
      ≡ some s1)
    × (pwm_interrupts twentieths (λ i d. pos 0) 42 (initial twentieths)
        ≡ some (at_levels twentieths all_set s1))
    × (interrupts twentieths (s32k_irqhandle twentieths (λ p. pos 0)) 86 (initial twentieths)
        ≡ some s2)
    × (pwm_irqhandle twentieths (λ i d. pos 0) (at_levels twentieths all_set s1)
        ≡ some (duties_at twentieths s2, at_levels twentieths all_set s2))
pwm_interrupts-interrupts_example =
    pwm_interrupts-interrupts twentieths s32k_adjust (λ p. pos 0) (λ i d. pos 0) (λ p. refl)
      (λ i d. refl) 42

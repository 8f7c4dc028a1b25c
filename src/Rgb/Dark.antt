-- ===== src/Rgb/Dark.antt =====
-- The pins that are not of the current colour.
use testsystem.Prelude.{
  ℕ, zero, suc, ◌≡◌, refl, sym, subst, ap, ◌∙◌, Bool, true, false, not, Option, none, some, arith,
  if◌then◌else◌, Bool-cases, inl, inr,
}
use testsystem.Prelude.Bits.{bit}
use testsystem.Prelude.Int.{ℤ}
use testsystem.Rgb.{
  Float, Levels, Rgb, drive, initial, next_colour, hold, advance, shown, irqhandle, interrupts,
  then_run, request, is_zero,
}

-- Every pin is set.
abbrev pub AllSet : Levels → Type 0
AllSet l = (l.pin_0 ≡ true) × (l.pin_1 ≡ true) × (l.pin_2 ≡ true)

-- Every pin outside the mask is set.
abbrev pub SetOutside : ℕ → Levels → Type 0
SetOutside pins l =
    (bit 0 pins ≡ false → l.pin_0 ≡ true)
    × (bit 1 pins ≡ false → l.pin_1 ≡ true)
    × (bit 2 pins ≡ false → l.pin_2 ≡ true)

-- Before an interrupt that clears, all pins are set.
abbrev pub DarkAt : Bool → ℕ → Levels → Type 0
DarkAt true pins l = SetOutside pins l
DarkAt false pins l = AllSet l

abbrev pub IsDark : {F : Type 0} → Rgb F → Type 0
IsDark s = DarkAt s.on s.rgb_pins s.levels

pub drive-AllSet : (pins : ℕ) (l : Levels) → SetOutside pins l → AllSet (drive true pins l)
unfolding drive
drive-AllSet pins l h = ground arith

pub drive-SetOutside : (pins : ℕ) (l : Levels) → AllSet l → SetOutside pins (drive false pins l)
unfolding drive
drive-SetOutside pins l h = ground arith

module _ (f : Float) where
  open f use {F}

  hold-keeps : (n1 : F) (s : Rgb F) → ((hold f n1 s).levels ≡ s.levels) × ((hold f n1 s).on ≡ s.on)
  unfolding hold next_colour
  hold-keeps n1 s = (ground arith, ground arith)

  advance-keeps : (s : Rgb F) → ((advance f s).levels ≡ s.levels) × ((advance f s).on ≡ s.on)
  unfolding advance
  advance-keeps s =
      let h = hold-keeps (if s.up then f.plus s.n else f.minus s.n) s in
      (ground (arith, h), ground (arith, h))

  advance-off : (s : Rgb F) → s.on ≡ false → advance f s ≡ s
  unfolding advance
  advance-off s e = simp e refl

  toggled-IsDark :
      (s : Rgb F) → IsDark s → let s' = shown f s in IsDark (record s' { on = not s'.on })
  unfolding shown
  toggled-IsDark s h =
      let s1 : Rgb F = record s { levels = drive s.on s.rgb_pins s.levels } in
      let keeps = advance-keeps s1 in
      let pins = (advance f s1).rgb_pins in
      elim (Bool-cases s.on) [
        | inl e ↦
            let outside = subst (λ b. DarkAt b s.rgb_pins s.levels) e h in
            let levels = ap (λ b. drive b s.rgb_pins s.levels) (sym e) ∙ sym keeps.0 in
            subst (λ b. DarkAt (not b) pins (advance f s1).levels) (sym (keeps.1 ∙ e))
              (subst AllSet levels (drive-AllSet s.rgb_pins s.levels outside))
        | inr e ↦
            let all = subst (λ b. DarkAt b s.rgb_pins s.levels) e h in
            let levels = ap (λ b. drive b s.rgb_pins s.levels) (sym e) in
            subst (λ (t : Rgb F). DarkAt (not t.on) t.rgb_pins t.levels) (sym (advance-off s1 e))
              (subst (λ b. DarkAt (not b) s.rgb_pins s1.levels) (sym e)
                (subst (SetOutside s.rgb_pins) levels (drive-SetOutside s.rgb_pins s.levels all)))
      ]

  module _ (adjust : ℕ → ℕ) (timer : ℕ → ℤ) where
    abbrev EndsDark : Option (Rgb F) → Type 0
    EndsDark none = Unit
    EndsDark (some s) = IsDark s

    irqhandle-EndsDark : (s : Rgb F) → IsDark s → EndsDark (irqhandle f adjust timer s)
    unfolding irqhandle
    irqhandle-EndsDark s h = elim (Bool-cases (is_zero (timer (request f adjust (shown f s))))) [
      | inl e ↦ simp e (toggled-IsDark s h)
      | inr e ↦ simp e tt
    ]

    then_run-EndsDark :
        (o : Option (Rgb F)) (k : Rgb F → Option (Rgb F))
        → EndsDark o
        → ((s : Rgb F) → IsDark s → EndsDark (k s))
        → EndsDark (then_run f o k)
    then_run-EndsDark none k h g = tt
    then_run-EndsDark (some s) k h g = g s h

    interrupts-EndsDark :
        (k : ℕ) (s : Rgb F) → IsDark s → EndsDark (interrupts f (irqhandle f adjust timer) k s)
    unfolding interrupts
    interrupts-EndsDark zero s h = h
    interrupts-EndsDark (suc k) s h =
        then_run-EndsDark (irqhandle f adjust timer s) (interrupts f (irqhandle f adjust timer) k)
          (irqhandle-EndsDark s h) (interrupts-EndsDark k)

    initial-IsDark : IsDark (initial f)
    unfolding initial
    initial-IsDark = (λ e. refl, λ e. refl, λ e. refl)

    outside_of : (on : Bool) (pins : ℕ) (l : Levels) → DarkAt on pins l → SetOutside pins l
    outside_of true pins l h = h
    outside_of false pins l h = (λ e. h.0, λ e. h.1, λ e. h.2)

    -- After any number of interrupts, on both boards, every pin that is not of the current colour is
    -- set, although the colour changes between the interrupt that sets the pins and the one that
    -- clears them; and before an interrupt that clears, all pins are set.
    pub interrupts-IsDark :
        (k : ℕ) (s : Rgb F)
        → interrupts f (irqhandle f adjust timer) k (initial f) ≡ some s
        → SetOutside s.rgb_pins s.levels × (s.on ≡ false → AllSet s.levels)
    interrupts-IsDark k s e =
        let dark = subst EndsDark e (interrupts-EndsDark k (initial f) initial-IsDark) in
        (
          outside_of s.on s.rgb_pins s.levels dark,
          λ off. subst (λ b. DarkAt b s.rgb_pins s.levels) off dark,
        )

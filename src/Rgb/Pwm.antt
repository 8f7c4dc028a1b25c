-- ===== src/Rgb/Pwm.antt =====
-- The light with PWM beside the light that drives its pins. A set pin is dark, and so is an output
-- whose duty cycle is MAX_TIME.
use mathlib.Core.Option
use testsystem.Prelude.{
  ℕ, zero, suc, ◌*◌, ◌≡◌, refl, ap, ◌∙◌, Bool, true, false, not, some, arith, if◌then◌else◌,
}
use testsystem.Prelude.Int.{ℤ}
use testsystem.Rgb.Dark.{SetOutside, AllSet, drive-AllSet, drive-SetOutside}
use testsystem.Rgb.{
  max_time, Float, Levels, Rgb, drive, initial, next_colour, hold, advance, shown, request,
  irqhandle, interrupts, then_run, pwm_irqhandle, pwm_interrupts, duties, is_zero,
}

module _ (f : Float) where
  open f use {F}

  -- The same but for the levels.
  abbrev pub at_levels : Levels → Rgb F → Rgb F
  at_levels l s = record s { levels = l }

  -- The duty cycles of a light with PWM whose outputs are on where the pins of the other light are
  -- cleared.
  abbrev pub duty_at : Bool → F → ℕ
  duty_at level n = if level then max_time else f.duty n

  abbrev pub duties_at : Rgb F → ℕ × ℕ × ℕ
  duties_at s = (duty_at s.levels.pin_0 s.n, duty_at s.levels.pin_1 s.n, duty_at s.levels.pin_2 s.n)

  hold-at_levels :
      (n1 : F) (s : Rgb F) (l : Levels) → hold f n1 (at_levels l s) ≡ at_levels l (hold f n1 s)
  unfolding hold next_colour
  hold-at_levels n1 s l = ground arith

  advance-at_levels :
      (s : Rgb F) (l : Levels) → advance f (at_levels l s) ≡ at_levels l (advance f s)
  unfolding advance
  advance-at_levels s l =
      ground (arith, hold-at_levels (if s.up then f.plus s.n else f.minus s.n) s l)

  hold-on : (n1 : F) (s : Rgb F) → (hold f n1 s).on ≡ s.on
  unfolding hold next_colour
  hold-on n1 s = ground arith

  advance-on : (s : Rgb F) → s.on ≡ true → (advance f s).on ≡ true
  unfolding advance
  advance-on s e = ground (arith, hold-on (if s.up then f.plus s.n else f.minus s.n) s)

  module _ (adjust : ℕ → ℕ) (timer : ℕ → ℤ) (set_duty_cycle : ℕ → ℕ → ℤ)
      (timer_takes : (p : ℕ) → is_zero (timer p) ≡ true)
      (pwm_takes : (i d : ℕ) → is_zero (set_duty_cycle i d) ≡ true) where
    pwm_once :
        (s : Rgb F) → Option.map (λ r. r.1) (pwm_irqhandle f set_duty_cycle s) ≡ some (advance f s)
    unfolding pwm_irqhandle duties
    pwm_once s = simp pwm_takes refl

    off_once :
        (s : Rgb F)
        → s.on ≡ false
        → irqhandle f adjust timer s
          ≡ some (record s { on = true; levels = drive false s.rgb_pins s.levels })
    unfolding irqhandle shown advance
    off_once s e = simp (e, timer_takes) refl

    -- The state behind an interrupt that sets the pins.
    abbrev set_on : Rgb F → Rgb F
    set_on s = record (advance f s) { on = false; levels = drive true s.rgb_pins s.levels }

    -- The state behind the two interrupts of a turn.
    abbrev turned : Rgb F → Rgb F
    turned s =
        let s1 = set_on s in record s1 { on = true; levels = drive false s1.rgb_pins s1.levels }

    on_once : (s : Rgb F) → s.on ≡ true → irqhandle f adjust timer s ≡ some (set_on s)
    unfolding irqhandle shown
    on_once s e =
        let toggled = λ (t : Rgb F). some (record t { on = not t.on }) in
        let l = drive s.on s.rgb_pins s.levels in
        let taken = timer_takes (request f adjust (shown f s)) in
        let first : irqhandle f adjust timer s ≡ toggled (advance f (at_levels l s)) =
          simp taken refl in
        first
        ∙ ap toggled (advance-at_levels s l)
        ∙ ap (λ b. some (record (advance f s) { on = not b; levels = l })) (advance-on s e)
        ∙ ap (λ b. some (record (advance f s) { on = false; levels = drive b s.rgb_pins s.levels }))
            e

    turn :
        (k : ℕ) (s : Rgb F)
        → s.on ≡ true
        → interrupts f (irqhandle f adjust timer) (suc (suc k)) s
          ≡ interrupts f (irqhandle f adjust timer) k (turned s)
    unfolding interrupts
    turn k s e =
        ap (λ o. then_run f o (interrupts f (irqhandle f adjust timer) (suc k))) (on_once s e)
        ∙ ap (λ o. then_run f o (interrupts f (irqhandle f adjust timer) k))
            (off_once (set_on s) refl)

    pwm_turn :
        (k : ℕ) (s : Rgb F) (l : Levels)
        → s.on ≡ true
        → pwm_interrupts f set_duty_cycle (suc k) (at_levels l s)
          ≡ pwm_interrupts f set_duty_cycle k (at_levels l (turned s))
    unfolding pwm_interrupts
    pwm_turn k s l e =
        ap (λ o. then_run f o (pwm_interrupts f set_duty_cycle k)) (pwm_once (at_levels l s))
        ∙ ap (pwm_interrupts f set_duty_cycle k) (
            advance-at_levels s l
            ∙ ap (λ b. record (advance f s) { on = b; levels = l }) (advance-on s e))

    duties-pins :
        (s : Rgb F) (l : Levels)
        → AllSet l
        → duties f s ≡ duties_at (at_levels (drive false s.rgb_pins l) s)
    unfolding duties drive
    duties-pins s l h = ground arith

    turned-SetOutside :
        (s : Rgb F)
        → SetOutside s.rgb_pins s.levels
        → SetOutside (turned s).rgb_pins (turned s).levels
    turned-SetOutside s h =
        drive-SetOutside (set_on s).rgb_pins (set_on s).levels (drive-AllSet s.rgb_pins s.levels h)

    -- An interrupt with PWM beside the two interrupts of a turn.
    pwm_turned :
        (s : Rgb F) (l : Levels)
        → s.on ≡ true
        → SetOutside s.rgb_pins s.levels
        → pwm_irqhandle f set_duty_cycle (at_levels l s)
          ≡ some (duties_at (turned s), at_levels l (turned s))
    unfolding pwm_irqhandle duties
    pwm_turned s l e h =
        let taken : pwm_irqhandle f set_duty_cycle (at_levels l s)
            ≡ some (duties f (advance f (at_levels l s)), advance f (at_levels l s)) =
          simp pwm_takes refl in
        let moved : advance f (at_levels l s) ≡ at_levels l (turned s) =
          advance-at_levels s l
          ∙ ap (λ b. record (advance f s) { on = b; levels = l }) (advance-on s e) in
        let lit = duties-pins (set_on s) (set_on s).levels (drive-AllSet s.rgb_pins s.levels h) in
        taken
        ∙ ap (λ t. some (duties f t, t)) moved
        ∙ ap (λ d. some (d, at_levels l (turned s))) lit

    same_light :
        (k : ℕ) (s : Rgb F) (l : Levels)
        → s.on ≡ true
        → SetOutside s.rgb_pins s.levels
        → (s1 : Rgb F) × (s2 : Rgb F) × (interrupts f (irqhandle f adjust timer) (2 * k) s
            ≡ some s1)
          × (pwm_interrupts f set_duty_cycle k (at_levels l s) ≡ some (at_levels l s1))
          × (interrupts f (irqhandle f adjust timer) (2 * suc k) s ≡ some s2)
          × (pwm_irqhandle f set_duty_cycle (at_levels l s1) ≡ some (duties_at s2, at_levels l s2))
    unfolding interrupts pwm_interrupts
    same_light zero s l e h = (s, turned s, refl, refl, turn 0 s e, pwm_turned s l e h)
    same_light (suc k) s l e h =
        let twice : (n : ℕ) → 2 * suc n ≡ suc (suc (2 * n)) = λ n. omega arith in
        let count = interrupts f (irqhandle f adjust timer) in
        let (s1, s2, run, pwm_run, next, show) =
          same_light k (turned s) l refl (turned-SetOutside s h) in
        (
          s1,
          s2,
          ap (λ n. count n s) (twice k) ∙ turn (2 * k) s e ∙ run,
          pwm_turn k s l e ∙ pwm_run,
          ap (λ n. count n s) (twice (suc k)) ∙ turn (2 * suc k) s e ∙ next,
          show,
        )

    -- Where the timer and the outputs take every value, the light with PWM is, interrupt by
    -- interrupt, the light that drives its pins by two interrupts each. From the start on both have
    -- the same colour, value and direction, and neither trips an assertion. Every interrupt with PWM
    -- gives the duty cycle of the value to just the outputs whose pins the two interrupts leave
    -- cleared, and MAX_TIME to the others.
    pub pwm_interrupts-interrupts :
        (k : ℕ)
        → let set : Levels = record { pin_0 = true; pin_1 = true; pin_2 = true } in
          (s1 : Rgb F) × (s2 : Rgb F) × (interrupts f (irqhandle f adjust timer) (2 * k) (initial f)
            ≡ some s1)
          × (pwm_interrupts f set_duty_cycle k (initial f) ≡ some (at_levels set s1))
          × (interrupts f (irqhandle f adjust timer) (2 * suc k) (initial f) ≡ some s2)
          × (pwm_irqhandle f set_duty_cycle (at_levels set s1)
              ≡ some (duties_at s2, at_levels set s2))
    unfolding initial
    pwm_interrupts-interrupts k =
        same_light k (initial f) (record { pin_0 = true; pin_1 = true; pin_2 = true }) refl
          (λ _. refl, λ _. refl, λ _. refl)

-- ===== src/Rgb/Cycle.antt =====
-- The light goes on to its next colour, again and again.
use testsystem.Prelude.{
  ℕ, zero, suc, ◌+◌, ◌*◌, ◌-◌, ◌≤◌, ◌<◌, ◌≡◌, ◌⊎◌, inl, inr, refl, sym, ap, ◌∙◌, subst, Bool, true,
  false, not, some, arith, ◌==◌, if◌then◌else◌, Bool-cases,
}
use testsystem.Prelude.Int.{ℤ}
use testsystem.Rgb.{
  Float, Rgb, colour, next_colour, hold, advance, request, shown, irqhandle, is_zero, interrupts,
  then_run, drive,
}

-- The values between the two ends.
abbrev pub Inside : (f : Float) → f.F → Type 0
Inside f x = (x ≡ f.one) ⊎ (x ≡ f.zero_f) ⊎ ((f.ge_one x ≡ false) × (f.le_zero x ≡ false))

-- What the light needs of `float`: from an end or between the ends, a step down does not reach 1 and
-- a step up does not reach 0, and a number of steps reaches the other end. The start is above 1. The
-- time of 1 is 0, and no time is above MAX_TIME.
pub record Laws (f : Float) : Type 0 where
  pub below : (x : f.F) → Inside f x → f.ge_one (f.minus x) ≡ false
  pub above : (x : f.F) → Inside f x → f.le_zero (f.plus x) ≡ false
  pub steps_down : f.F → ℕ
  pub steps_up : f.F → ℕ
  pub down :
      (x : f.F) → Inside f x → f.le_zero (f.minus x) ≡ false → steps_down (f.minus x) < steps_down x
  pub up : (x : f.F) → Inside f x → f.ge_one (f.plus x) ≡ false → steps_up (f.plus x) < steps_up x
  pub start_above : f.ge_one (f.plus f.start) ≡ true
  pub time_one : f.on_time f.one ≡ 0
  pub times : (x : f.F) → Inside f x → f.on_time x ≤ 21000

module _ (f : Float) (laws : Laws f) where
  open f use {F, one, zero_f, start, plus, minus, ge_one, le_zero, on_time}
  open laws use {below, above, steps_down, steps_up, down, up, start_above}

  -- The value has been held, or the light has just started; the state counts to 7.
  abbrev pub Held : Rgb F → Type 0
  Held s = Inside f s.n ⊎ ((s.n ≡ start) × (s.up ≡ true) × (s.on ≡ true))

  pub record Inv (s : Rgb F) : Type 0 where
    pub held : Held s
    pub counted : s.state ≤ 7
    pub same : 0 < s.state → s.rgb_pins ≡ colour (s.state - 1) 0

  -- The interrupts that are left until the next colour, at most.
  abbrev pub left : Rgb F → ℕ
  left s =
      2 * (if s.up then suc (suc (steps_up s.n + steps_down one)) else suc (steps_down s.n))
      + (if s.on then 0 else 1)

  abbrev pub Progress : Rgb F → Rgb F → Type 0
  Progress s s' =
      Inv s'
      × (((s'.state ≡ s.state) × (s'.rgb_pins ≡ s.rgb_pins) × (left s' < left s))
          ⊎ (s'.state ≡ (if s.state == 7 then 1 else suc s.state)))

  abbrev pub toggled : Rgb F → Rgb F
  toggled s = record s { on = not s.on }

  -- The next state, if the timer takes the time.
  abbrev pub after : Rgb F → Rgb F
  after s = let s' = shown f s in record s' { on = not s'.on }

  off-Progress : (s : Rgb F) → Inv s → s.on ≡ false → Progress s (after s)
  unfolding shown advance
  off-Progress s h e = ground arith

  hold_up-Progress :
      (s : Rgb F) → Inv s → s.on ≡ true → s.up ≡ true → Progress s (toggled (hold f (plus s.n) s))
  unfolding hold next_colour colour
  hold_up-Progress s h e u = ground (arith, above s.n, up s.n, start_above)

  hold_down-Progress :
      (s : Rgb F) → Inv s → s.on ≡ true → s.up ≡ false → Progress s (toggled (hold f (minus s.n) s))
  unfolding hold next_colour colour
  hold_down-Progress s h e u = ground (arith, below s.n, down s.n)

  advance-eq :
      (s : Rgb F)
      → s.on ≡ true
      → (up : Bool) → s.up ≡ up
      → advance f s ≡ hold f (if up then plus s.n else minus s.n) s
  unfolding advance
  advance-eq s e up u =
      ap (λ b. if b then hold f (if s.up then plus s.n else minus s.n) s else s) e
      ∙ ap (λ b. hold f (if b then plus s.n else minus s.n) s) u

  pub after-Progress : (s : Rgb F) → Inv s → Progress s (after s)
  unfolding shown
  after-Progress s h =
      let s1 : Rgb F = record s { levels = drive s.on s.rgb_pins s.levels } in
      let inv : Inv s1 = record { held = h.held; counted = h.counted; same = h.same } in
      let by = λ (up : Bool) (e : s.on ≡ true) (u : s.up ≡ up). sym (advance-eq s1 e up u) in
      elim (Bool-cases s.on) [
        | inr e ↦ off-Progress s h e
        | inl e ↦ elim (Bool-cases s.up) [
          | inl u ↦ subst (λ t. Progress s1 (toggled t)) (by true e u) (hold_up-Progress s1 inv e u)
          | inr u ↦
              subst (λ t. Progress s1 (toggled t)) (by false e u) (hold_down-Progress s1 inv e u)
        ]
      ]

  module _ (adjust : ℕ → ℕ) (timer : ℕ → ℤ) where
    -- The timer takes every time that the light asks for from here on.
    abbrev pub Takes : Type 0
    Takes = (s : Rgb F) → Inv s → is_zero (timer (request f adjust (shown f s))) ≡ true

    pub irqhandle-after : Takes → (s : Rgb F) → Inv s → irqhandle f adjust timer s ≡ some (after s)
    unfolding irqhandle
    irqhandle-after takes s h = simp (takes s h) refl

    -- A number of interrupts leads to the state.
    abbrev pub Reaches : Rgb F → ℕ → Type 0
    Reaches s state =
        (k : ℕ) × (s' : Rgb F) × (interrupts f (irqhandle f adjust timer) k s ≡ some s')
        × (s'.state ≡ state)
        × Inv s'

    first :
        (s s1 : Rgb F) (state : ℕ)
        → irqhandle f adjust timer s ≡ some s1
        → Reaches s1 state
        → Reaches s state
    unfolding interrupts
    first s s1 state e r = (
      suc r.0,
      r.1,
      ap (λ o. then_run f o (interrupts f (irqhandle f adjust timer) r.0)) e ∙ r.2,
      r.3,
      r.4,
    )

    here : (s : Rgb F) (state : ℕ) → s.state ≡ state → Inv s → Reaches s state
    unfolding interrupts
    here s state e h = (0, s, refl, e, h)

    abbrev pub following : ℕ → ℕ
    following state = if state == 7 then 1 else suc state

    pub next_state :
        (bound : ℕ) (s : Rgb F) → Takes → Inv s → left s < bound → Reaches s (following s.state)
    next_state zero s takes h l = absurd (omega arith)
    next_state (suc bound) s takes h l =
        let p = after-Progress s h in
        let e = irqhandle-after takes s h in
        first s (after s) (following s.state) e (elim p.1 [
          | inr done ↦ here (after s) (following s.state) done p.0
          | inl more ↦
              subst (λ n. Reaches (after s) (following n)) more.0
                (next_state bound (after s) takes p.0 (omega (arith, more.2)))
        ])

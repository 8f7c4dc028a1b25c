-- ===== src/Ramp/Led.antt =====
-- The duty cycle of `ledTask`: its range, its waits and its period.
use testsystem.Prelude.{
  ℕ, ◌+◌, ◌*◌, ◌%◌, ◌≤◌, ◌≡◌, ◌⊎◌, refl, Bool, true, false, ◌&&◌, arith, ◌==◌, if◌then◌else◌, ◌-◌,
  ◌/◌, Bool-cases, inl, inr, all_below, all_below-eq_true,
}
use testsystem.Ramp.{Ramp, led_round, led_waittime, led_initial, rounds, rounds-Inv}

-- The duty cycle is a multiple of 400 within 0 and 20000, with room for the next step.
pub record Inv (s : Ramp) : Type 0 where
  pub whole : s.n % 400 ≡ 0
  pub room_up : s.up ≡ true → s.n ≤ 19600
  pub room_down : s.up ≡ false → (400 ≤ s.n) × (s.n ≤ 20000)

led_round-Inv : (s : Ramp) → Inv s → Inv (led_round s)
unfolding led_round
led_round-Inv s h = ground arith

in_range : (s : Ramp) → Inv s → s.n ≤ 20000
in_range s h = elim (Bool-cases s.up) [
  | inl e ↦ omega (arith, h.room_up e)
  | inr e ↦ omega (arith, h.room_down e)
]

-- The value is at an end of its range, and turns round there.
abbrev pub IsTurning : Ramp → Type 0
IsTurning s = ((s.n ≡ 0) × (s.up ≡ true)) ⊎ ((s.n ≡ 20000) × (s.up ≡ false))

waits_at_ends : (s : Ramp) → Inv s → (led_waittime s ≡ 1000 → IsTurning s)
unfolding led_waittime
waits_at_ends s h w = ground arith

ends_wait : (s : Ramp) → (s.n ≡ 0) ⊎ (s.n ≡ 20000) → led_waittime s ≡ 1000
unfolding led_waittime
ends_wait s e = ground arith

-- In every round of `ledTask` the duty cycle lies within 0 and 20000, so that no sum wraps, and the
-- task waits a second exactly when it has come to an end of the range, where it turns round.
pub led_task-range :
    (k : ℕ)
    → let s = rounds led_round k led_initial in
      (s.n ≤ 20000)
      × (led_waittime s ≡ 1000 → IsTurning s)
      × ((s.n ≡ 0) ⊎ (s.n ≡ 20000) → led_waittime s ≡ 1000)
led_task-range k =
    let s = rounds led_round k led_initial in
    let inv = rounds-Inv Inv led_round led_round-Inv k led_initial (ground arith) in
    (in_range s inv, waits_at_ends s inv, ends_wait s)

same_bool : Bool → Bool → Bool
same_bool true b = b
same_bool false b = if b then false else true

returns : Bool → ℕ → Bool
returns up n =
    let s = rounds led_round 100 (record { up = up; n = n }) in s.n == n && same_bool s.up up

returns-eq :
    (up : Bool) (n : ℕ)
    → returns up n ≡ true
    → rounds led_round 100 (record { up = up; n = n }) ≡ record { up = up; n = n }
unfolding returns same_bool
returns-eq true n h = ground arith
returns-eq false n h = ground arith

returns_up : all_below 50 (λ k. returns true (400 * k)) ≡ true
unfolding all_below returns same_bool rounds led_round
returns_up = refl

returns_down : all_below 50 (λ k. returns false (400 * k + 400)) ≡ true
unfolding all_below returns same_bool rounds led_round
returns_down = refl

period_of :
    (up : Bool) (n : ℕ)
    → Inv (record { up = up; n = n })
    → rounds led_round 100 (record { up = up; n = n }) ≡ record { up = up; n = n }
period_of true n h =
    let e : n ≡ 400 * (n / 400) = omega (arith, h.whole) in
    returns-eq true n (
      rw e (
        all_below-eq_true 50 (λ k. returns true (400 * k)) (n / 400) returns_up
          (omega (arith, h.room_up refl))))
period_of false n h =
    let e : n ≡ 400 * ((n - 400) / 400) + 400 = omega (arith, h.whole, h.room_down refl) in
    returns-eq false n (
      rw e (
        all_below-eq_true 50 (λ k. returns false (400 * k + 400)) ((n - 400) / 400) returns_down
          (omega (arith, h.room_down refl))))

-- From every state that satisfies the invariant, a hundred rounds lead back to it.
pub led_task-period : (s : Ramp) → Inv s → rounds led_round 100 s ≡ s
led_task-period s h = period_of s.up s.n h

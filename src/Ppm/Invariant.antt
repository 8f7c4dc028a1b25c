-- ===== src/Ppm/Invariant.antt =====
-- What holds of a running transmitter between two expiries of its timer, and one whole frame.
use testsystem.Prelude.{
  ℕ, zero, suc, ◌+◌, ◌*◌, ◌≤◌, ◌<◌, ◌≡◌, refl, ap, Bool, false, Option, none, some, List, [], ◌∷◌,
  arith, length, lt→ltb, ltb, Bool-cases, if◌then◌else◌, inl, inr, add32, sub32, ◌∙◌, get_elem?,
  All,
}
use testsystem.Prelude.Int.{ℤ, pos}
use testsystem.Ppm.{
  dispatch, ppm_data, ppm_data_slot, assert_zero?, State, stoped, start, slot_data, last, pause,
  Call, set_pin, clear_pin, oneshot, Ppm, ppm_start, timer_handler,
}

-- The sum of the first `n` slots.
abbrev pub total_below : ℕ → List ℕ → ℕ
total_below zero ts = 0
total_below (suc n) [] = 0
total_below (suc n) (t ∷ ts) = t + total_below n ts

abbrev pub drop : ℕ → List ℕ → List ℕ
drop zero ts = ts
drop (suc n) [] = []
drop (suc n) (t ∷ ts) = drop n ts

-- The slot array has its length, every slot its range, and a frame fits 32 bits.
pub record IsReady (p : Ppm) : Type 0 where
  pub length_slot : length p.slot ≡ p.slots
  pub times : All (λ t. t ≤ 1000) p.slot
  pub not_empty : 0 < p.slots
  pub small : p.slots ≤ 2000000

-- How much of the frame is left, in each state.
abbrev pub Left : State → Ppm → Type 0
Left stoped p = Unit {0}
Left start p =
    (p.pos < p.slots) × (p.sum + 1000 * p.pos + total_below p.pos p.slot ≡ 2000 * p.slots)
Left slot_data p =
    (0 < p.pos)
    × (p.pos ≤ p.slots)
    × (p.sum + 1000 * p.pos + total_below p.pos p.slot ≡ 2000 * p.slots + 500)
Left last p = (p.pos ≡ p.slots) × (p.sum + total_below p.pos p.slot ≡ 1000 * p.slots)
Left pause p =
    (p.pos ≡ p.slots) × (1000 * p.waittime + p.sum + total_below p.pos p.slot ≡ 1000 * p.slots)

pub record Inv (p : Ppm) : Type 0 where
  pub ready : IsReady p
  pub left : Left p.state p

-- The timer takes every request.
abbrev pub Accepts : (List Call → ℕ → ℤ) → Type 0
Accepts timer_oneshot = (calls : List Call) (t : ℕ) → timer_oneshot calls t ≡ pos 0

-- A slot inside the array can be read, has its range, and adds to the sum below it.
pub slot_at :
    (ts : List ℕ) (n : ℕ)
    → All (λ t. t ≤ 1000) ts
    → n < length ts
    → (t : ℕ) × (get_elem? ts n ≡ some t)
      × (t ≤ 1000)
      × (total_below (n + 1) ts ≡ total_below n ts + t)
      × (total_below n ts ≤ 1000 * n)
slot_at [] n a h = absurd (omega arith)
slot_at (t ∷ ts) zero a h = (t, refl, a.0, omega arith, omega arith)
slot_at (t ∷ ts) (suc n) a h =
    let (u, e, le, s, b) = slot_at ts n a.1 (omega arith) in
    (u, e, le, ground (arith, s), ground (arith, b, a.0))

total_below-le : (ts : List ℕ) (n : ℕ) → All (λ t. t ≤ 1000) ts → total_below n ts ≤ 1000 * n
total_below-le ts zero a = omega arith
total_below-le [] (suc n) a = omega arith
total_below-le (t ∷ ts) (suc n) a = omega (arith, total_below-le ts n a.1, a.0)

-- The handler returned, and left a state that satisfies the invariant.
abbrev pub Keeps : Option (Bool × Ppm) → Type 0
Keeps none = ⊥
Keeps (some r) = Inv r.1

Keeps-some : (o : Option (Bool × Ppm)) → Keeps o → (r : Bool × Ppm) × (o ≡ some r) × Inv r.1
Keeps-some none k = absurd k
Keeps-some (some r) k = (r, refl, k)

module _ (timer_oneshot : List Call → ℕ → ℤ) (woken : List Call → Bool) where
  abbrev handler : Ppm → Option (Bool × Ppm)
  handler = timer_handler timer_oneshot woken

  -- Of any ready transmitter `ppm_start` makes one that satisfies the invariant.
  pub ppm_start-Inv : (p : Ppm) → IsReady p → Inv (ppm_start timer_oneshot woken p).1
  unfolding ppm_start
  ppm_start-Inv p r = ground (arith, r)

  -- The low time of a slot begins.
  abbrev pub slot_sent : ℕ → Ppm → Ppm
  slot_sent t p = record p {
    pos = add32 p.pos 1;
    state = slot_data;
    sum = sub32 p.sum (add32 t 500);
    calls = oneshot (add32 t 500) ∷ clear_pin ∷ p.calls;
  }

  -- A pulse of 500 us begins.
  abbrev pub pulse_sent : State → Ppm → Ppm
  pulse_sent s p = record p {
    state = s;
    sum = sub32 p.sum 500;
    calls = oneshot 500 ∷ set_pin ∷ p.calls;
  }

  ppm_data-in_range :
      (t : ℕ) (p : Ppm)
      → p.pos < p.slots
      → get_elem? p.slot p.pos ≡ some t
      → ppm_data timer_oneshot woken p ≡ some (ppm_data_slot timer_oneshot woken t p)
  unfolding ppm_data
  ppm_data-in_range t p h g = simp (lt→ltb _ _ h) (simp g)

  module _ (p : Ppm) (ok : Accepts timer_oneshot) where
    pub handler-start :
        (t : ℕ)
        → p.state ≡ start
        → p.pos < p.slots
        → get_elem? p.slot p.pos ≡ some t
        → handler p ≡ some (false, slot_sent t p)
    unfolding timer_handler
    handler-start t e h g =
        ap (λ s. dispatch timer_oneshot woken s p) e
        ∙ ap assert_zero? (ppm_data-in_range t (record p { state = slot_data }) h g)
        ∙ simp ok

    pub handler-slot_data :
        p.state ≡ slot_data
        → handler p ≡ some (false, pulse_sent (if ltb p.pos p.slots then start else last) p)
    unfolding timer_handler
    handler-slot_data e =
        ap (λ s. dispatch timer_oneshot woken s p) e ∙ (elim (Bool-cases (ltb p.pos p.slots)) [
          | inl more ↦ simp (more, ok)
          | inr done ↦ simp (done, ok)
        ])

  module _ (p : Ppm) (ok : Accepts timer_oneshot) (inv : Inv p) where
    start-Inv : p.state ≡ start → Keeps (handler p)
    start-Inv e =
        let h : p.pos < p.slots = ground (arith, inv) in
        let (t, g, le, s, b) = slot_at p.slot p.pos inv.ready.times (omega arith) in
        rw (handler-start p ok t e h g) (ground (arith, inv, s, b, le))

    slot_data-Inv : p.state ≡ slot_data → Keeps (handler p)
    slot_data-Inv e =
        rw (handler-slot_data p ok e) (ground (arith, total_below-le p.slot p.pos inv.ready.times))

    last-Inv : p.state ≡ last → Keeps (handler p)
    unfolding timer_handler
    last-Inv e = ground arith

    pause-Inv : p.state ≡ pause → Keeps (handler p)
    unfolding timer_handler
    pause-Inv e = ground (arith, ok (set_pin ∷ p.calls) 500)

    stoped-Inv : p.state ≡ stoped → Keeps (handler p)
    unfolding timer_handler
    stoped-Inv e = ground arith

    state-Inv : (s : State) → p.state ≡ s → Keeps (handler p)
    state-Inv stoped e = stoped-Inv e
    state-Inv start e = start-Inv e
    state-Inv slot_data e = slot_data-Inv e
    state-Inv last e = last-Inv e
    state-Inv pause e = pause-Inv e

    pub handler-Keeps : Keeps (handler p)
    handler-Keeps = state-Inv p.state refl

    -- While the timer takes every request, an expiry trips no assertion, reads no slot outside the
    -- array, and keeps the invariant.
    pub timer_handler-Inv : (r : Bool × Ppm) × (handler p ≡ some r) × Inv r.1
    timer_handler-Inv = Keeps-some (handler p) handler-Keeps

-- ===== src/Rgb/Colours.antt =====
-- The colours that the light goes through from its start.
use Prim.Native.Nat.add
use testsystem.Prelude.{
  ℕ, zero, suc, ◌+◌, ◌-◌, ◌%◌, ◌≡◌, inr, refl, ap, ◌∙◌, subst, Option, none, some, arith,
}
use testsystem.Prelude.Int.{ℤ}
use testsystem.Rgb.{Float, Rgb, colour, initial, irqhandle, interrupts, then_run}
use testsystem.Rgb.Cycle.{
  Laws, Inv, Takes, Reaches, left, following, next_state, after, after-Progress, irqhandle-after,
}

module _ (f : Float) (adjust : ℕ → ℕ) (timer : ℕ → ℤ) where
  open f use {F}

  then_run_assoc :
      (o : Option (Rgb F)) (k m n : Rgb F → Option (Rgb F))
      → ((s : Rgb F) → n s ≡ then_run f (k s) m)
      → then_run f o n ≡ then_run f (then_run f o k) m
  then_run_assoc none k m n h = refl
  then_run_assoc (some s) k m n h = h s

  interrupts-add :
      (k m : ℕ) (s : Rgb F)
      → interrupts f (irqhandle f adjust timer) (k + m) s
        ≡ then_run f
            (interrupts f (irqhandle f adjust timer) k s)
            (interrupts f (irqhandle f adjust timer) m)
  unfolding interrupts
  interrupts-add zero m s = ap (λ n. interrupts f (irqhandle f adjust timer) n s) (add.zero m)
  interrupts-add (suc k) m s =
      ap (λ n. interrupts f (irqhandle f adjust timer) n s) (add.suc k m)
      ∙ then_run_assoc (irqhandle f adjust timer s) (interrupts f (irqhandle f adjust timer) k)
          (interrupts f (irqhandle f adjust timer) m)
          (interrupts f (irqhandle f adjust timer) (k + m)) (interrupts-add k m)

  module _ (laws : Laws f) (takes : Takes f laws adjust timer) where
    Reaches-trans :
        (s : Rgb F) (a b : ℕ) (r : Reaches f laws adjust timer s a)
        → Reaches f laws adjust timer r.1 b
        → Reaches f laws adjust timer s b
    Reaches-trans s a b r q = (
      r.0 + q.0,
      q.1,
      interrupts-add r.0 q.0 s
          ∙ ap (λ o. then_run f o (interrupts f (irqhandle f adjust timer) q.0)) r.2
          ∙ q.2,
      q.3,
      q.4,
    )

    initial-Inv : Inv f laws (initial f)
    unfolding initial
    initial-Inv = record {
      held = inr (refl, refl, refl);
      counted = omega arith;
      same = λ h. absurd (omega (arith, h));
    }

    next_of :
        (s : Rgb F) (a : ℕ)
        → (r : Reaches f laws adjust timer s a)
        → Reaches f laws adjust timer s (following f laws adjust timer a)
    next_of s a r =
        let q =
          next_state f laws adjust timer (suc (left f laws r.1)) r.1 takes r.4 (omega arith) in
        Reaches-trans s a _ r
          (subst (λ n. Reaches f laws adjust timer r.1 (following f laws adjust timer n)) r.3 q)

    -- From a state with the invariant, the states behind it are reached one after the other.
    every_state :
        (s : Rgb F)
        → Inv f laws s
        → (j : ℕ) → Reaches f laws adjust timer s (suc ((s.state + j) % 7))
    every_state s h zero =
        let e : following f laws adjust timer s.state ≡ suc ((s.state + 0) % 7) =
          ground (arith, h.counted) in
        subst (Reaches f laws adjust timer s) e
          (next_state f laws adjust timer (suc (left f laws s)) s takes h (omega arith))
    every_state s h (suc j) =
        let e : following f laws adjust timer (suc ((s.state + j) % 7))
            ≡ suc ((s.state + suc j) % 7) =
          ground arith in
        subst (Reaches f laws adjust timer s) e
          (next_of s (suc ((s.state + j) % 7)) (every_state s h j))

    interrupts-Inv :
        (k : ℕ) (s : Rgb F)
        → Inv f laws s
        → (s' : Rgb F) × (interrupts f (irqhandle f adjust timer) k s ≡ some s') × Inv f laws s'
    unfolding interrupts
    interrupts-Inv zero s h = (s, refl, h)
    interrupts-Inv (suc k) s h =
        let r = interrupts-Inv k (after f laws s) (after-Progress f laws s h).0 in
        (
          r.0,
          ap (λ o. then_run f o (interrupts f (irqhandle f adjust timer) k))
                (irqhandle-after f laws adjust timer takes s h)
              ∙ r.1,
          r.2,
        )

    -- Where the timer takes every time that it is asked for, no interrupt trips an assertion, and
    -- after any number of them the light goes on through the seven colours in their order: the next
    -- colour, the one behind it and so on are each shown after some more interrupts.
    pub every_colour :
        (n j : ℕ)
        → (s : Rgb F) × (interrupts f (irqhandle f adjust timer) n (initial f) ≡ some s)
          × (k : ℕ) × (s' : Rgb F) × (interrupts f (irqhandle f adjust timer) (n + k) (initial f)
              ≡ some s')
          × (s'.rgb_pins ≡ colour ((s.state + j) % 7) 0)
    every_colour n j =
        let a = interrupts-Inv n (initial f) initial-Inv in
        let r = every_state a.0 a.2 j in
        let e : r.1.state - 1 ≡ (a.0.state + j) % 7 = omega (arith, r.3) in
        (
          a.0,
          a.1,
          r.0,
          r.1,
          interrupts-add n r.0 (initial f)
              ∙ ap (λ o. then_run f o (interrupts f (irqhandle f adjust timer) r.0)) a.1
              ∙ r.2,
          r.4.same (omega (arith, r.3)) ∙ ap (λ i. colour i 0) e,
        )

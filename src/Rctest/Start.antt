-- ===== src/Rctest/Start.antt =====
-- When `rcInit` creates its task, and the receiver that it gives to the task.
use testsystem.Prelude.{
  ℕ, suc, ◌+◌, ◌≡◌, ◌↔◌, refl, sym, ap, ◌∙◌, Bool, true, false, Bool-cases, inl, inr, none, some,
  List, [], ◌∷◌, ◌++◌, arith, All, all, length, if◌then◌else◌, replicate, append_assoc, append-nil,
}
use testsystem.Prelude.Int.{ℤ, pos, is_negative}
use testsystem.Rc.{Rc, Answers, cleared, rc_init, rc_setup, rc_max_channels}
use testsystem.Rc.Setup.{
  handed_out, Succeeds, rc_setup-next, rc_setup-period, rc_setup-callback_refused, room, longer,
}
use testsystem.Rctest.{
  Started, created, asserted, null_access, captures, setup_captures, rc_task_init,
}

-- The receiver with the units in the first channels and two channels left.
abbrev pub ready : Rc
ready = handed_out captures 2

abbrev receiver : Rc → Started → Rc
receiver rc (created rc') = rc'
receiver rc asserted = rc
receiver rc null_access = rc

abbrev is_created : Started → Bool
is_created (created rc) = true
is_created asserted = false
is_created null_access = false

-- A refused unit ends the calls.
setup_captures-refused :
    (a : ℕ → Answers) (rc rc' : Rc) (u : ℕ) (us : List ℕ) (ret : ℤ)
    → rc_setup (a u) rc u ≡ (ret, rc')
    → is_negative ret ≡ true
    → setup_captures a rc (u ∷ us) ≡ asserted
unfolding setup_captures
setup_captures-refused a rc rc' u us ret e n = rw e (simp n refl)

setup_captures-accepted :
    (a : ℕ → Answers) (rc rc' : Rc) (u i : ℕ) (us : List ℕ)
    → rc_setup (a u) rc u ≡ (pos i, rc')
    → setup_captures a rc (u ∷ us) ≡ setup_captures a rc' us
unfolding setup_captures
setup_captures-accepted a rc rc' u i us e = rw e refl

-- The calls in a row succeed, or one of them does not.
setup_captures-from :
    (a : ℕ → Answers) (units us : List ℕ) (free : ℕ)
    → length us + room units free ≡ rc_max_channels
    → All (λ u. Succeeds (a u)) units
    → setup_captures a (handed_out us (room units free)) units
      ≡ created (handed_out (us ++ units) free)
unfolding setup_captures
setup_captures-from a [] us free e s = rw append-nil refl
setup_captures-from a (u ∷ units) us free e s =
    setup_captures-accepted a (handed_out us (suc (room units free)))
      (handed_out (us ++ (u ∷ [])) (room units free)) u (length us) units
      (rc_setup-next (a u) us (room units free) u s.0 e)
    ∙ setup_captures-from a units (us ++ (u ∷ [])) free (omega (arith, longer us u, e)) s.1
    ∙ ap (λ vs. created (handed_out vs free)) (append_assoc us (u ∷ []) units)

setup_captures-Succeeds :
    (a : ℕ → Answers) (units us : List ℕ) (free : ℕ)
    → length us + room units free ≡ rc_max_channels
    → is_created (setup_captures a (handed_out us (room units free)) units) ≡ true
    → All (λ u. Succeeds (a u)) units
setup_captures-Succeeds a [] us free e h = tt
setup_captures-Succeeds a (u ∷ units) us free e h =
    elim (Bool-cases (is_negative (a u).set_callback)) [
      | inl c ↦ absurd (
          stops (a u).set_callback (handed_out us (suc (room units free)))
            (rc_setup-callback_refused (a u) us (room units free) u c e) c)
      | inr c ↦ elim (Bool-cases (is_negative (a u).set_period)) [
        | inl p ↦ absurd (
            stops (a u).set_period (handed_out (us ++ (u ∷ [])) (room units free))
              (rc_setup-period (a u) us (room units free) u c p e) p)
        | inr p ↦ (
          (c, p),
          setup_captures-Succeeds a units (us ++ (u ∷ [])) free (omega (arith, longer us u, e)) (
              ap is_created (
                sym (
                  setup_captures-accepted a (handed_out us (suc (room units free)))
                    (handed_out (us ++ (u ∷ [])) (room units free)) u (length us) units
                    (rc_setup-next (a u) us (room units free) u (c, p) e)))
              ∙ h),
        )
      ]
    ]
  where
    stops :
        (ret : ℤ) (rc' : Rc)
        → rc_setup (a u) (handed_out us (suc (room units free))) u ≡ (ret, rc')
        → is_negative ret ≡ true
        → ⊥
    stops ret rc' k n =
        let f =
          setup_captures-refused a (handed_out us (suc (room units free))) rc' u units ret k n in
        ground (arith, sym (ap is_created f) ∙ h)

-- `rcInit` creates its task exactly if all six capture units can be had, `rc_init` succeeds and
-- every callback and period is accepted. The task then gets a receiver whose first six channels
-- have the units in the order of the code.
pub rc_task_init_iff :
    (capture_init : ℕ → Bool) (a : ℕ → Answers) (has_memory : Bool) (ret : ℤ) (rc : Rc)
    → (rc_task_init capture_init a has_memory ret ≡ created rc) ↔ (
        (all capture_init captures ≡ true)
        × (has_memory ≡ true)
        × (is_negative ret ≡ false)
        × All (λ u. Succeeds (a u)) captures
        × (rc ≡ ready))
unfolding rc_task_init rc_init
rc_task_init_iff capture_init a has_memory ret rc = (
  λ h. forward (all capture_init captures) has_memory (is_negative ret) rc h,
  λ (o, m, n, s, e). simp (o, m, n, setup_captures-from a captures [] 2 refl s, e) refl,
)
  where
    forward :
        (o m n : Bool) (rc : Rc)
        → (if o
            then elim (if m
                then if n then none else some (replicate rc_max_channels cleared)
                else none) [ none ↦ null_access | some rc ↦ setup_captures a rc captures ]
            else asserted)
          ≡ created rc
        → (o ≡ true) × (m ≡ true) × (n ≡ false) × All (λ u. Succeeds (a u)) captures × (rc ≡ ready)
    forward false m n rc h = absurd (ground (arith, ap is_created h))
    forward true false n rc h = absurd (ground (arith, ap is_created h))
    forward true true true rc h = absurd (ground (arith, ap is_created h))
    forward true true false rc h =
        let s = setup_captures-Succeeds a captures [] 2 refl (ap is_created h) in
        (
          refl,
          refl,
          refl,
          s,
          sym (ap (receiver rc) (sym (setup_captures-from a captures [] 2 refl s) ∙ h)),
        )

-- ===== src/Rctest.antt =====
-- The test of the receiver in src/vf610/rctest.c: `rcInit`, which gives the capture units to the
-- channels, and the line that `rcTestTask` prints in each round.
-- `capture_init` answers whether a unit can be had, and the calls behind `rc_init` and `rc_setup`
-- with the statuses of Rc. The six calls of each kind in a row are recursion on their units.
pub mod Start
pub mod Line
mod Tests
use testsystem.Prelude.{
  ℕ, zero, suc, Bool, true, false, Option, none, some, List, [], ◌∷◌, all, if◌then◌else◌,
}
use testsystem.Prelude.Int.{ℤ, is_negative}
use testsystem.Rc.{Rc, Answers, rc_init, rc_setup, rc_get}

-- The arguments of `capture_init`, in the order of the array `cap`.
abbrev pub captures : List ℕ
captures = 5 ∷ 4 ∷ 3 ∷ 2 ∷ 7 ∷ 6 ∷ []

-- How `rcInit` ends: with the task created, at an assertion, or with an access through NULL.
pub data Started : Type 0 where
  created : Rc → Started
  asserted null_access : Started

-- `rc_setup` and its assertion for one unit after another.
unfoldable pub setup_captures : (ℕ → Answers) → Rc → List ℕ → Started
setup_captures a rc [] = created rc
setup_captures a rc (u ∷ us) =
    let (ret, rc') = rc_setup (a u) rc u in
    let rest = setup_captures a rc' us in if is_negative ret then asserted else rest

-- `rc_init` is called with memory or without, and `ret` is the status it gets for its callback.
-- Its result is not tested.
unfoldable pub rc_task_init : (ℕ → Bool) → (ℕ → Answers) → Bool → ℤ → Started
rc_task_init capture_init a has_memory ret =
    if all capture_init captures
    then elim (rc_init has_memory ret) [
      | none ↦ null_access
      | some rc ↦ setup_captures a rc captures
    ]
    else asserted

abbrev pub add_time : ℕ → Option (List ℕ) → Option (List ℕ)
add_time time none = none
add_time time (some times) = some (time ∷ times)

-- The loop of `rcTestTask` for as many channels, from index `i` on.
unfoldable pub print_channels : ℕ → ℕ → Rc → Option (List ℕ)
print_channels zero i rc = some []
print_channels (suc n) i rc =
    let rest = print_channels n (suc i) rc in
    elim (rc_get rc i) [ none ↦ none | some time ↦ add_time time rest ]

-- A round of `rcTestTask`. `none` is an access outside the array.
unfoldable pub rc_test_round : Rc → Option (List ℕ)
rc_test_round rc = print_channels 8 0 rc

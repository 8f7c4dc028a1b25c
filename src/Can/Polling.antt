-- ===== src/Can/Polling.antt =====
-- The errors that the interrupt reports and the task prints, in any order of the two.
use Prim.Native.Nat.{bit_or}
use testsystem.Prelude.{
  ℕ, ◌+◌, ◌≤◌, ◌≡◌, ◌⊎◌, refl, sym, ap, ◌∙◌, Bool, true, false, ◌||◌, none, some, List, [], ◌∷◌,
  ◌++◌, arith, inl, inr, if◌then◌else◌,
}
use testsystem.Prelude.Bits.{bit, bit-zero, bit-bit_or}
use testsystem.Can.{Errors, no_errors, Event, reported, polled, can_test_error, take_errors, run}

-- Whether bit `k` is in one of the printed masks, of errors and of data.
abbrev pub printed_error : ℕ → List (ℕ × ℕ) → Bool
printed_error k [] = false
printed_error k ((err, err_data) ∷ masks) = bit k err || printed_error k masks

abbrev pub printed_data : ℕ → List (ℕ × ℕ) → Bool
printed_data k [] = false
printed_data k ((err, err_data) ∷ masks) = bit k err_data || printed_data k masks

-- Whether the interrupt reported bit `k`.
abbrev pub reported_error : ℕ → List Event → Bool
reported_error k [] = false
reported_error k (reported err err_data ∷ events) = bit k err || reported_error k events
reported_error k (polled ∷ events) = reported_error k events

abbrev pub reported_data : ℕ → List Event → Bool
reported_data k [] = false
reported_data k (reported err err_data ∷ events) = bit k err_data || reported_data k events
reported_data k (polled ∷ events) = reported_data k events

or_assoc : (a b c : Bool) → ((a || b) || c) ≡ (a || (b || c))
or_assoc true b c = refl
or_assoc false b c = refl

or_false : (a : Bool) → (a || false) ≡ a
or_false true = refl
or_false false = refl

-- The masks that are still to be printed count as printed.
Accounted : ℕ → List Event → Errors → Type 0
Accounted k events s =
    let (masks, s') = run events s in
    ((printed_error k masks || bit k s'.can_err) ≡ (bit k s.can_err || reported_error k events))
    × ((printed_data k masks || bit k s'.can_err_data)
        ≡ (bit k s.can_err_data || reported_data k events))

take_errors-cases :
    (s : Errors)
    → (take_errors s ≡ (none, s)) ⊎ (take_errors s ≡ (some (s.can_err, s.can_err_data), no_errors))
unfolding take_errors
take_errors-cases s = ground arith

take_errors-none : (s : Errors) → s.can_err ≡ 0 → take_errors s ≡ (none, s)
unfolding take_errors
take_errors-none s z = ground arith

-- A bit `a` is moved from the globals to the masks.
moved : (a p f r : Bool) → (p || f) ≡ r → ((a || p) || f) ≡ (a || r)
moved true p f r e = refl
moved false p f r e = e

module _ (k : ℕ) where
  polled-Accounted :
      (events : List Event) (s : Errors)
      → ((s' : Errors) → Accounted k events s')
      → Accounted k (polled ∷ events) s
  unfolding Accounted run
  polled-Accounted events s ih = elim (take_errors-cases s) [
    | inl e ↦ rw e (ih s)
    | inr e ↦
        let zero_left = λ (r : Bool). ap (λ b. b || r) (bit-zero k) in
        rw e (
          moved (bit k s.can_err) _ _ _ ((ih no_errors).0 ∙ zero_left (reported_error k events)),
          moved (bit k s.can_err_data) _ _ _
              ((ih no_errors).1 ∙ zero_left (reported_data k events)),
        )
  ]

  run-Accounted : (events : List Event) (s : Errors) → Accounted k events s
  unfolding Accounted run can_test_error
  run-Accounted [] s = (sym (or_false (bit k s.can_err)), sym (or_false (bit k s.can_err_data)))
  run-Accounted (reported err err_data ∷ events) s =
      let ih = run-Accounted events (can_test_error err err_data s) in
      (
        ih.0
            ∙ ap (λ b. b || reported_error k events) (bit-bit_or k s.can_err err)
            ∙ or_assoc (bit k s.can_err) (bit k err) (reported_error k events),
        ih.1
            ∙ ap (λ b. b || reported_data k events) (bit-bit_or k s.can_err_data err_data)
            ∙ or_assoc (bit k s.can_err_data) (bit k err_data) (reported_data k events),
      )
  run-Accounted (polled ∷ events) s = polled-Accounted events s (λ s'. run-Accounted events s')

-- How many of the printed masks have bit `k`, in one of the two columns.
abbrev pub as_count : Bool → ℕ
as_count b = if b then 1 else 0

abbrev pub times_printed : (ℕ × ℕ → ℕ) → ℕ → List (ℕ × ℕ) → ℕ
times_printed column k [] = 0
times_printed column k (masks ∷ rest) =
    as_count (bit k (column masks)) + times_printed column k rest

-- How often the interrupt reported bit `k`.
abbrev pub times_reported : (ℕ × ℕ → ℕ) → ℕ → List Event → ℕ
times_reported column k [] = 0
times_reported column k (reported err err_data ∷ events) =
    as_count (bit k (column (err, err_data))) + times_reported column k events
times_reported column k (polled ∷ events) = times_reported column k events

abbrev pub the_error : ℕ × ℕ → ℕ
the_error (err, err_data) = err

abbrev pub the_data : ℕ × ℕ → ℕ
the_data (err, err_data) = err_data

-- A bit that is printed or still to be printed stands for a report of its own.
Counted : ℕ → List Event → Errors → Type 0
Counted k events s =
    let (masks, s') = run events s in
    (times_printed the_error k masks + as_count (bit k s'.can_err)
      ≤ as_count (bit k s.can_err) + times_reported the_error k events)
    × (times_printed the_data k masks + as_count (bit k s'.can_err_data)
        ≤ as_count (bit k s.can_err_data) + times_reported the_data k events)

as_count-or : (a b : Bool) (n p : ℕ) → p ≤ as_count (a || b) + n → p ≤ as_count a + (as_count b + n)
as_count-or true b n p h = omega (arith, h)
as_count-or false b n p h = omega (arith, h)

module _ (k : ℕ) where
  polled-Counted :
      (events : List Event) (s : Errors)
      → ((s' : Errors) → Counted k events s')
      → Counted k (polled ∷ events) s
  unfolding Counted run
  polled-Counted events s ih = elim (take_errors-cases s) [
    | inl e ↦ rw e (ih s)
    | inr e ↦
        let none : as_count (bit k 0) ≡ 0 = ap as_count (bit-zero k) in
        let (errors, others) = ih no_errors in
        rw e (omega (arith, errors, none), omega (arith, others, none))
  ]

  run-Counted : (events : List Event) (s : Errors) → Counted k events s
  unfolding Counted run can_test_error
  run-Counted [] s = (omega arith, omega arith)
  run-Counted (reported err err_data ∷ events) s =
      let (errors, others) = run-Counted events (can_test_error err err_data s) in
      (
        as_count-or (bit k s.can_err) (bit k err) _ _ (rw (← bit-bit_or k s.can_err err) errors),
        as_count-or (bit k s.can_err_data) (bit k err_data) _ _
            (rw (← bit-bit_or k s.can_err_data err_data) others),
      )
  run-Counted (polled ∷ events) s = polled-Counted events s (λ s'. run-Counted events s')

taken-none : (s : Errors) → (take_errors s).1.can_err ≡ 0
unfolding take_errors
taken-none s = ground arith

-- Behind a round of the task no error is left.
polled-none : (events : List Event) (s : Errors) → (run (events ++ (polled ∷ [])) s).1.can_err ≡ 0
unfolding run
polled-none [] s = taken-none s
polled-none (reported err err_data ∷ events) s = polled-none events (can_test_error err err_data s)
polled-none (polled ∷ events) s = polled-none events (take_errors s).1

-- In every order of interrupts and rounds of the task, the bits that are printed, together with those
-- in the globals, are the bits that were reported, so that no error is lost. No bit is printed more
-- often than it was reported, where one that is in the globals, still to be printed, counts as
-- printed. The same holds of the error data. Behind a further round of the task no error is still to
-- be printed.
pub run-all_reported :
    (k : ℕ) (events : List Event)
    → let (masks, s) = run events no_errors in
      ((printed_error k masks || bit k s.can_err) ≡ reported_error k events)
      × ((printed_data k masks || bit k s.can_err_data) ≡ reported_data k events)
      × (times_printed the_error k masks + as_count (bit k s.can_err)
          ≤ times_reported the_error k events)
      × (times_printed the_data k masks + as_count (bit k s.can_err_data)
          ≤ times_reported the_data k events)
      × ((run (events ++ (polled ∷ [])) no_errors).1.can_err ≡ 0)
unfolding Accounted Counted
run-all_reported k events =
    let a = run-Accounted k events no_errors in
    let (errors, others) = run-Counted k events no_errors in
    let none : as_count (bit k 0) ≡ 0 = ap as_count (bit-zero k) in
    (
      a.0 ∙ ap (λ b. b || reported_error k events) (bit-zero k),
      a.1 ∙ ap (λ b. b || reported_data k events) (bit-zero k),
      omega (arith, errors, none),
      omega (arith, others, none),
      polled-none events no_errors,
    )

-- Events that report data without an error.
abbrev pub IsDataOnly : List Event → Type 0
IsDataOnly [] = Unit
IsDataOnly (reported err err_data ∷ events) = (err ≡ 0) × IsDataOnly events
IsDataOnly (polled ∷ events) = IsDataOnly events

-- Data that come without an error are never printed, whatever the task polls: only the error mask is
-- tested.
pub data_only-unprinted :
    (events : List Event) (s : Errors) → IsDataOnly events → s.can_err ≡ 0 → (run events s).0 ≡ []
unfolding run can_test_error
data_only-unprinted [] s d z = refl
data_only-unprinted (reported err err_data ∷ events) s d z =
    data_only-unprinted events (can_test_error err err_data s) d.1
      (ap (λ a. bit_or a err) z ∙ ap (bit_or 0) d.0)
data_only-unprinted (polled ∷ events) s d z =
    rw (take_errors-none s z) (data_only-unprinted events s d z)

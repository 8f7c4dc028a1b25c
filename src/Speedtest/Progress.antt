-- ===== src/Speedtest/Progress.antt =====
-- How far the measurement gets.
use testsystem.Prelude.{
  ℕ, zero, suc, ◌+◌, ◌-◌, ◌*◌, ◌≤◌, ◌<◌, ◌≡◌, refl, true, List, [], ◌∷◌, arith, leb, ◌==◌,
  if◌then◌else◌,
}
use testsystem.Speedtest.{
  Measure, Speedtest, Outcome, running, out_of_bounds, step, follow, rounds, initial,
}

abbrev pub count : ℕ → List ℕ → ℕ
count t [] = 0
count t (x ∷ xs) = let rest = count t xs in if x == t then suc rest else rest

module _ {ℓ} {Us : Type ℓ} (counter_to_us : ℕ → Us) where
  -- The test is one of the enumeration, and the table has a row left.
  record Inv (s : Speedtest Us) : Type 0 where
    known : s.acutal_test ≤ 4
    counted : s.iteration ≤ 1000

  -- The rounds until the write outside the table.
  abbrev left : Speedtest Us → ℕ
  left s = 4 * (1000 - s.iteration) + (4 - s.acutal_test)

  abbrev Steps : ℕ → Outcome Us → Type 0
  Steps n (running s) = Inv s × (left s ≡ n)
  Steps n out_of_bounds = ⊥
  Steps n Outcome.asserted = ⊥

  step-left :
      (m : Measure) (s : Speedtest Us) (n : ℕ)
      → Inv s
      → m.woken ≡ true
      → left s ≡ suc n
      → Steps n (step counter_to_us m s)
  unfolding step
  step-left m s n inv w e = ground arith

  step-last :
      (m : Measure) (s : Speedtest Us)
      → Inv s
      → m.woken ≡ true
      → left s ≡ 0
      → step counter_to_us m s ≡ out_of_bounds
  unfolding step
  step-last m s inv w e = ground arith

  module _ (measure : ℕ → Measure) (woken : (t : ℕ) → (measure t).woken ≡ true) where
    -- All rounds up to the last one run, and then the table is full.
    rounds-left :
        (n t : ℕ) (s : Speedtest Us)
        → Inv s
        → left s ≡ n
        → (s' : Speedtest Us) × (rounds counter_to_us measure t n s ≡ running s')
          × Inv s'
          × (left s' ≡ 0)
    unfolding rounds
    rounds-left zero t s inv e = (s, refl, inv, e)
    rounds-left (suc n) t s inv e =
        go (step counter_to_us (measure t) s) (step-left (measure t) s n inv (woken t) e)
          (λ s' i l. rounds-left n (suc t) s' i l)
      where
        go :
            (o : Outcome Us)
            → Steps n o
            → ((s' : Speedtest Us)
                → Inv s'
                → left s' ≡ n
                → (s2 : Speedtest Us) × (rounds counter_to_us measure (suc t) n s' ≡ running s2)
                  × Inv s2
                  × (left s2 ≡ 0))
            → (s2 : Speedtest Us) × (follow counter_to_us o (rounds counter_to_us measure (suc t) n)
                ≡ running s2)
              × Inv s2
              × (left s2 ≡ 0)
        go (running s') (i, l) ih = ih s' i l
        go out_of_bounds k ih = absurd k
        go Outcome.asserted k ih = absurd k

    -- As long as every wait ends as expected, the measurement runs through 4004 rounds. Behind
    -- them `iteration` is 1000, the number of rows of the table, and round 4005 stops with a write
    -- outside the table.
    pub speedtest_task-overruns :
        (zero_us : Us)
        → (s : Speedtest Us) × (rounds counter_to_us measure 0 4004 (initial zero_us) ≡ running s)
          × (s.iteration ≡ 1000)
          × (step counter_to_us (measure 4004) s ≡ out_of_bounds)
    speedtest_task-overruns zero_us =
        let (s, run, inv, none) = rounds-left 4004 0 (initial zero_us) start begin in
        (s, run, full s inv none, step-last (measure 4004) s inv (woken 4004) none)
      where
        start : Inv (initial zero_us)
        start = unfold initial in omega arith

        begin : left (initial zero_us) ≡ 4004
        begin = unfold initial in refl

        full : (s : Speedtest Us) → Inv s → left s ≡ 0 → s.iteration ≡ 1000
        full s inv e = omega (arith, inv, e)

  -- How often each test was run, and what is stored.
  record Tally (s : Speedtest Us) : Type 0 where
    before : s.acutal_test ≡ 0 → (count 0 s.tested ≡ 0) × (s.iteration ≡ 0)
    behind : 0 < s.acutal_test → count 0 s.tested ≡ 1
    events : count 1 s.tested ≡ s.iteration + (if leb 2 s.acutal_test then 1 else 0)
    small : s.iteration ≤ 1000

  Keeps : Outcome Us → Type 0
  Keeps (running s) = Tally s
  Keeps out_of_bounds = Unit
  Keeps Outcome.asserted = Unit

  step-Tally : (m : Measure) (s : Speedtest Us) → Tally s → Keeps (step counter_to_us m s)
  unfolding step Keeps
  step-Tally m s h = ground arith

  rounds-Tally :
      (measure : ℕ → Measure) (n t : ℕ) (s : Speedtest Us)
      → Tally s
      → Keeps (rounds counter_to_us measure t n s)
  unfolding rounds Keeps
  rounds-Tally measure zero t s h = h
  rounds-Tally measure (suc n) t s h =
      go (step counter_to_us (measure t) s) (step-Tally (measure t) s h)
        (λ s' h'. rounds-Tally measure n (suc t) s' h')
    where
      go :
          (o : Outcome Us)
          → Keeps o
          → ((s' : Speedtest Us) → Tally s' → Keeps (rounds counter_to_us measure (suc t) n s'))
          → Keeps (follow counter_to_us o (rounds counter_to_us measure (suc t) n))
      go (running s') k ih = ih s' k
      go out_of_bounds k ih = tt
      go Outcome.asserted k ih = tt

  -- Whatever the kernel does, while the task runs the semaphore test has been run at most once, and
  -- the event test once for each row that is stored: from the second row on, the stamps of the
  -- semaphore test are those of the first.
  pub semaphore_once :
      (measure : ℕ → Measure) (n : ℕ) (zero_us : Us) (s : Speedtest Us)
      → rounds counter_to_us measure 0 n (initial zero_us) ≡ running s
      → (count 0 s.tested ≤ 1) × (s.iteration ≤ count 1 s.tested)
  unfolding Keeps
  semaphore_once measure n zero_us s e =
      at_most (rw e at (rounds-Tally measure n 0 (initial zero_us) start))
    where
      start : Tally (initial zero_us)
      start = unfold initial in ground arith

      at_most : Tally s → (count 0 s.tested ≤ 1) × (s.iteration ≤ count 1 s.tested)
      at_most h = ground (arith, h)

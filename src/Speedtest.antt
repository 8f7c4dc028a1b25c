-- ===== src/Speedtest.antt =====
-- The latency measurement of src/vf610/speedtest.c: a task that goes through four tests, keeps two
-- time stamps of each, and after the last test stores all stamps in a row of a table.
-- A round of the task's loop is a step. What the kernel and the counter do in it is a `Measure`. The
-- conversion of a stamp to microseconds is floating point: a parameter.
pub mod Progress
mod Tests
use testsystem.Prelude.{
  ℕ, zero, suc, ◌+◌, Bool, true, false, List, [], ◌∷◌, map, ltb, ◌==◌, ◌||◌, if◌then◌else◌, set,
  replicate, add32,
}

-- `enum tests`.
abbrev pub semaphore : ℕ
semaphore = 0

abbrev pub event : ℕ
event = 1

abbrev pub notification : ℕ
notification = 2

abbrev pub task_suspend : ℕ
task_suspend = 3

abbrev pub end : ℕ
end = 4

abbrev pub iteration_max : ℕ
iteration_max = 1000

-- A row of `counterValue`. The code writes its columns 1 and 2.
pub record Stamps {ℓ} (A : Type ℓ) : Type ℓ where
  pub column_0 : A
  pub column_1 : A
  pub column_2 : A

-- The stamps of the interrupt and of the task, and whether the wait ended as `CONFIG_ASSERT` wants.
pub record Measure : Type 0 where
  pub isr_time : ℕ
  pub task_time : ℕ
  pub woken : Bool

module _ {ℓ} {Us : Type ℓ} (counter_to_us : ℕ → Us) where
  abbrev pub row_to_us : Stamps ℕ → Stamps Us
  row_to_us r = record {
    column_0 = counter_to_us r.column_0;
    column_1 = counter_to_us r.column_1;
    column_2 = counter_to_us r.column_2;
  }

-- The globals of the file, and the tests that have been run, newest first.
pub record Speedtest {ℓ} (Us : Type ℓ) : Type ℓ where
  pub acutal_test : ℕ
  pub counter_value : List (Stamps ℕ)
  pub values : List (List (Stamps Us))
  pub iteration : ℕ  -- uint32_t
  pub tested : List ℕ

-- A write outside `values`, or a failed assertion, stops the task.
pub data Outcome {ℓ} (Us : Type ℓ) : Type ℓ where
  running : Speedtest Us → Outcome Us
  out_of_bounds asserted : Outcome Us

-- The stamps of `interruptHandler` and of the task, in the row of the test.
unfoldable pub stamp : ℕ → Measure → List (Stamps ℕ) → List (Stamps ℕ)
stamp t m [] = []
stamp zero m (r ∷ rs) = record r { column_1 = m.isr_time; column_2 = m.task_time } ∷ rs
stamp (suc t) m (r ∷ rs) = r ∷ stamp t m rs

module _ {ℓ} {Us : Type ℓ} where
  abbrev pub measured : Measure → Speedtest Us → Outcome Us
  measured m s = running (record s {
    counter_value = stamp s.acutal_test m s.counter_value;
    tested = s.acutal_test ∷ s.tested;
    acutal_test = s.acutal_test + 1;
  })

  -- The end of the case `END`, and the increment behind the switch.
  abbrev pub next_iteration : Speedtest Us → Speedtest Us
  next_iteration s = record s { iteration = add32 s.iteration 1; acutal_test = semaphore + 1 }

  module _ (counter_to_us : ℕ → Us) where
    -- The case `END`, up to the test of `iteration`. The statistics behind that test are left out:
    -- they are not reached.
    store : Speedtest Us → Outcome Us
    store s =
        if ltb s.iteration iteration_max
        then running (
            next_iteration (record s {
              values = set s.values s.iteration (map (row_to_us counter_to_us) s.counter_value);
            }))
        else out_of_bounds

    -- A round of `speedtest_task`.
    unfoldable pub step : Measure → Speedtest Us → Outcome Us
    unfolding store
    step m s =
        if s.acutal_test == semaphore || s.acutal_test == event || s.acutal_test == notification
        then if m.woken then measured m s else asserted
        else if s.acutal_test == task_suspend
        then measured m s
        else if s.acutal_test == end
        then store s
        else asserted

    abbrev pub follow : Outcome Us → (Speedtest Us → Outcome Us) → Outcome Us
    follow (running s) k = k s
    follow out_of_bounds k = out_of_bounds
    follow asserted k = asserted

    -- `n` rounds from round `t` on.
    unfoldable pub rounds : (ℕ → Measure) → ℕ → ℕ → Speedtest Us → Outcome Us
    rounds measure t zero s = running s
    rounds measure t (suc n) s = follow (step (measure t) s) (rounds measure (suc t) n)

abbrev pub no_stamps : Stamps ℕ
no_stamps = record { column_0 = 0; column_1 = 0; column_2 = 0 }

unfoldable pub initial {ℓ} : {Us : Type ℓ} → Us → Speedtest Us
initial zero_us = record {
  acutal_test = semaphore;
  counter_value = replicate end no_stamps;
  values =
      replicate iteration_max
        (replicate end (record { column_0 = zero_us; column_1 = zero_us; column_2 = zero_us }));
  iteration = 0;
  tested = [];
}

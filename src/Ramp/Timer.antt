-- ===== src/Ramp/Timer.antt =====
-- The period of the one-shot timer of src/vf610/timer.c. It starts far above its range.
use Prim.Native.Nat.add
use testsystem.Prelude.{ℕ, zero, suc, ◌+◌, ◌%◌, ◌≤◌, ◌≡◌, refl, ap, ◌∙◌, true, false, arith}
use testsystem.Ramp.{Ramp, irqhandle, timer_initial, rounds, rounds-Inv}

-- The period has reached its range.
pub record IsSettled (s : Ramp) : Type 0 where
  pub whole : s.n % 100 ≡ 0
  pub above : 500 ≤ s.n
  pub below : s.n ≤ 1500
  pub room_up : s.up ≡ true → s.n ≤ 1400
  pub room_down : s.up ≡ false → 600 ≤ s.n

irqhandle-IsSettled : (s : Ramp) → IsSettled s → IsSettled (irqhandle s)
unfolding irqhandle
irqhandle-IsSettled s h = ground arith

rounds-add :
    (step : Ramp → Ramp) (j k : ℕ) (s : Ramp)
    → rounds step (j + k) s ≡ rounds step k (rounds step j s)
unfolding rounds
rounds-add step zero k s = ap (λ n. rounds step n s) (add.zero k)
rounds-add step (suc j) k s = ap (λ n. rounds step n s) (add.suc j k) ∙ rounds-add step j k (step s)

first_187 : rounds irqhandle 187 timer_initial ≡ record { up = false; n = 1500 }
unfolding rounds irqhandle
first_187 = refl

-- The first interrupt raises the period to 20100 us and turns it round, so that it comes down 100 us
-- at a time; from the 187th interrupt on, every period lies within 500 and 1500 us.
pub timer_settles :
    (k : ℕ) → let s = rounds irqhandle (187 + k) timer_initial in (500 ≤ s.n) × (s.n ≤ 1500)
timer_settles k =
    let inv =
      rounds-Inv IsSettled irqhandle irqhandle-IsSettled k (record { up = false; n = 1500 })
        (ground arith) in
    rw (rounds-add irqhandle 187 k timer_initial, first_187) (inv.above, inv.below)

-- ===== src/Ramp.antt =====
-- Values that run up and down: the duty cycle of `ledTask` (src/vf610/test.c, with the same loop in
-- the test.c of the other boards), that of `pwmTask` (src/vf610/pwmtest.c), and the period of the
-- one-shot timer in src/vf610/timer.c. Each function is one round of the loop or one interrupt.
pub mod Led
pub mod Pwm
pub mod Timer
mod Tests
use testsystem.Prelude.{
  ℕ, zero, suc, ◌+◌, ◌-◌, ◌%◌, Bool, true, false, ◌||◌, ◌&&◌, ltb, leb, ◌==◌, if◌then◌else◌,
}

pub record Ramp : Type 0 where
  pub up : Bool
  pub n : ℕ

-- `uint64_t` and `int` arithmetic; a negative `int` is its bit pattern.
abbrev pub u64_mod : ℕ
u64_mod = 18446744073709551616

abbrev pub i32_mod : ℕ
i32_mod = 4294967296

abbrev pub is_negative_i32 : ℕ → Bool
is_negative_i32 n = leb 2147483648 n

-- `n >= c` and `n <= c` for an `int` and a constant of 0 or more.
abbrev pub ge_i32 : ℕ → ℕ → Bool
ge_i32 n c = if is_negative_i32 n then false else leb c n

abbrev pub le_i32 : ℕ → ℕ → Bool
le_i32 n c = if is_negative_i32 n then true else leb n c

-- The first `if` of the loop of `ledTask`, over a `uint64_t`.
unfoldable pub led_round : Ramp → Ramp
led_round s =
    if s.up
    then record { up = if leb (20000 - 400) s.n then false else true; n = (s.n + 400) % u64_mod }
    else record { up = if leb s.n 400 then true else false; n = (s.n + u64_mod - 400) % u64_mod }

-- The second `if`: the milliseconds to wait.
unfoldable pub led_waittime : Ramp → ℕ
led_waittime s = if s.n == 0 || s.n == 20000 then 1000 else 20

abbrev pub led_initial : Ramp
led_initial = record { up = true; n = 10000 }

-- The `if` of the loop of `pwmTask`, over an `int32_t`. The new `n` is the duty cycle of all three
-- outputs.
unfoldable pub pwm_round : Ramp → Ramp
pwm_round s =
    if s.up
    then record { up = if ge_i32 s.n 19500 then false else true; n = (s.n + 500) % i32_mod }
    else record { up = if le_i32 s.n 500 then true else false; n = (s.n + i32_mod - 500) % i32_mod }

-- `irqhandle` of src/vf610/timer.c: the new `n` is the next period.
unfoldable pub irqhandle : Ramp → Ramp
irqhandle s =
    let n' = if s.up then (s.n + 100) % i32_mod else (s.n + i32_mod - 100) % i32_mod in
    record { up = if ge_i32 n' 1500 then false else if le_i32 n' 500 then true else s.up; n = n' }

abbrev pub timer_initial : Ramp
timer_initial = record { up = true; n = 20000 }

unfoldable pub rounds : (Ramp → Ramp) → ℕ → Ramp → Ramp
rounds step zero s = s
rounds step (suc k) s = rounds step k (step s)

pub rounds-Inv {ℓ} :
    (P : Ramp → Type ℓ) (step : Ramp → Ramp)
    → ((s : Ramp) → P s → P (step s))
    → (k : ℕ) (s : Ramp) → P s
    → P (rounds step k s)
unfolding rounds
rounds-Inv P step keep zero s h = h
rounds-Inv P step keep (suc k) s h = rounds-Inv P step keep k (step s) (keep s h)

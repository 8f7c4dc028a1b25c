-- ===== src/Ppm/Pause.antt =====
-- The pause behind a frame: the rest of the frame in whole milliseconds by the task, or a last
-- one-shot where less than a millisecond is left.
use testsystem.Prelude.{
  ℕ, ◌*◌, ◌/◌, ◌%◌, ◌≤◌, ◌<◌, ◌≡◌, ap, ◌∙◌, false, some, List, ◌∷◌, Bool, arith, lt→ltb, sub32,
}
use testsystem.Prelude.Int.{ℤ}
use testsystem.Ppm.{
  last, pause, Call, clear_pin, oneshot, give_from_isr, yield_from_isr, delay_until, Ppm,
  timer_handler, dispatch, ppm_task, ppm_start,
}
use testsystem.Ppm.Invariant.{Accepts}

sub-whole : (n : ℕ) → n < 4294967296 → sub32 n (n / 1000 * 1000) ≡ n % 1000
sub-whole n h = omega arith

-- The transmitter while its task waits.
abbrev pub waiting : Ppm → Ppm
waiting p = record p {
  state = pause;
  waittime = p.sum / 1000;
  sum = p.sum % 1000;
  calls = yield_from_isr ∷ give_from_isr ∷ clear_pin ∷ p.calls;
}

-- The transmitter while its timer runs through the rest of the pause.
abbrev pub resting : Ppm → Ppm
resting p = record p { state = pause; waittime = 0; calls = oneshot p.sum ∷ clear_pin ∷ p.calls }

module _ (timer_oneshot : List Call → ℕ → ℤ) (woken : List Call → Bool) where
  -- With a millisecond or more left, the expiry behind the closing pulse wakes the task and leaves
  -- the timer unarmed. The task then waits the whole milliseconds and starts the next frame, so what
  -- is left beyond them is not waited for.
  pub pause_by_task :
      (p : Ppm)
      → 1000 ≤ p.sum
      → p.sum < 4294967296
      → p.state ≡ last
      → (timer_handler timer_oneshot woken p ≡ some (woken (clear_pin ∷ p.calls), waiting p))
        × (ppm_task timer_oneshot woken (waiting p)
            ≡ (ppm_start timer_oneshot woken (record p {
              waittime = p.sum / 1000;
              calls = delay_until (p.sum / 1000) ∷ (waiting p).calls;
            })).1)
  unfolding timer_handler ppm_task
  pause_by_task p h l e = (ap (λ s. dispatch timer_oneshot woken s p) e ∙ by_task, ground arith)
    where
      by_task : dispatch timer_oneshot woken last p ≡ some (woken (clear_pin ∷ p.calls), waiting p)
      by_task = simp (lt→ltb 0 (p.sum / 1000) (omega arith), sub-whole p.sum l)

  -- With less left, but some, that expiry arms the timer for exactly the rest, and the next expiry
  -- starts a frame, if the timer takes every request.
  pub pause_by_timer :
      (p : Ppm)
      → Accepts timer_oneshot
      → p.state ≡ last
      → 0 < p.sum
      → p.sum < 1000
      → (timer_handler timer_oneshot woken p ≡ some (false, resting p))
        × (timer_handler timer_oneshot woken (resting p)
            ≡ some (false, (ppm_start timer_oneshot woken (resting p)).1))
  unfolding timer_handler ppm_start
  pause_by_timer p ok e h l = (ground arith, simp ok)

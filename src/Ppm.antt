-- ===== src/Ppm.antt =====
-- The pulse-position transmitter of src/vf610/ppm.c: the state of `struct ppm`, the functions that
-- the one-shot timer and the pause task call, and the initialisation.
-- The HAL and FreeRTOS calls are recorded in `calls`, newest first. What they return is a parameter,
-- a function of the calls made so far. A failed `CONFIG_ASSERT` or an access outside the slot array
-- stops the program: `none`.
pub mod Frame
pub mod Invariant
pub mod Waveform
pub mod Pause
pub mod Init
mod Tests
use testsystem.Prelude.{
  ℕ, zero, suc, ◌+◌, ◌-◌, ◌*◌, ◌/◌, Bool, true, false, Option, none, some, List, [], ◌∷◌, ltb, ◌==◌,
  if◌then◌else◌, add32, sub32, u32, length, get_elem?, set,
}
use testsystem.Prelude.Int.{ℤ, pos, negsuc, is_negative}

-- `enum ppm_state`; `slot_data` is `PPM_DATA`.
pub data State : Type 0 where
  stoped start slot_data last pause : State

-- A call that leaves the file.
pub data Call : Type 0 where
  set_pin clear_pin give_from_isr yield_from_isr create_task free_slot free_ppm : Call
  oneshot delay_until : ℕ → Call

-- `struct ppm`. The handles `timer`, `pin`, `sem` and `task` are only passed on.
pub record Ppm : Type 0 where
  pub slots : ℕ  -- uint32_t
  pub slot : List ℕ
  pub waittime : ℕ  -- uint32_t
  pub pos : ℕ  -- uint32_t
  pub state : State
  pub sum : ℕ  -- uint32_t
  pub calls : List Call

abbrev pub ppm_min_time : ℕ
ppm_min_time = 500

abbrev pub ppm_max_time : ℕ
ppm_max_time = 1500

-- `if (ret < 0) return ret; return 0;`
abbrev pub status : ℤ → ℤ
status ret = if is_negative ret then ret else pos 0

-- `CONFIG_ASSERT(ret == 0); return 0;`
abbrev pub assert_zero : ℤ × Ppm → Option (Bool × Ppm)
assert_zero (pos zero, p) = some (false, p)
assert_zero (pos (suc n), p) = none
assert_zero (negsuc n, p) = none

abbrev pub assert_zero? : Option (ℤ × Ppm) → Option (Bool × Ppm)
assert_zero? none = none
assert_zero? (some r) = assert_zero r

abbrev pub follow : Option (Bool × Ppm) → (Ppm → Option Ppm) → Option Ppm
follow none k = none
follow (some (r, p)) k = k p

-- `timer_oneshot` and the flag that `xSemaphoreGiveFromISR` stores.
module _ (timer_oneshot : List Call → ℕ → ℤ) (woken : List Call → Bool) where
  pub ppm_start_transfer : Ppm → ℤ × Ppm
  ppm_start_transfer p = (
    status (timer_oneshot (set_pin ∷ p.calls) ppm_min_time),
    record p { sum = sub32 p.sum ppm_min_time; calls = oneshot ppm_min_time ∷ set_pin ∷ p.calls },
  )

  -- The part of `ppm_data` behind the read of the slot.
  ppm_data_slot : ℕ → Ppm → ℤ × Ppm
  ppm_data_slot time p = (
    status (timer_oneshot (clear_pin ∷ p.calls) (add32 time ppm_min_time)),
    record p {
      pos = add32 p.pos 1;
      state = slot_data;
      sum = sub32 p.sum (add32 time ppm_min_time);
      calls = oneshot (add32 time ppm_min_time) ∷ clear_pin ∷ p.calls;
    },
  )

  pub ppm_data : Ppm → Option (ℤ × Ppm)
  unfolding ppm_data_slot
  ppm_data p =
      if ltb p.pos p.slots
      then elim (get_elem? p.slot p.pos) [ none ↦ none | some time ↦ some (ppm_data_slot time p) ]
      else none

  pub ppm_last : Ppm → ℤ × Ppm
  unfolding ppm_start_transfer
  ppm_last p = ppm_start_transfer p

  pub ppm_end_pause : Ppm → ℤ × Ppm
  ppm_end_pause p =
      (status (timer_oneshot p.calls p.sum), record p { calls = oneshot p.sum ∷ p.calls })

  pub ppm_start : Ppm → ℤ × Ppm
  unfolding ppm_start_transfer
  ppm_start p = ppm_start_transfer (record p {
    state = start;
    pos = 0;
    sum = u32 (ppm_max_time * p.slots + ppm_min_time * p.slots + ppm_min_time);
  })

  -- The statuses of `ppm_endPause` and `ppm_start` are dropped here, and the flag is returned.
  pub ppm_pause : Ppm → Bool × Ppm
  unfolding ppm_end_pause ppm_start
  ppm_pause p =
      let w = p.sum / 1000 in
      let q = record p { waittime = w; calls = clear_pin ∷ p.calls } in
      if ltb 0 w
      then (
        woken q.calls,
        record q { sum = sub32 p.sum (w * 1000); calls = yield_from_isr ∷ give_from_isr ∷ q.calls },
      )
      else if ltb 0 p.sum
      then (false, (ppm_end_pause q).1)
      else (false, (ppm_start q).1)

  -- A round of the loop of `ppm_task`, once the semaphore is taken.
  pub ppm_task : Ppm → Ppm
  unfolding ppm_end_pause ppm_start
  ppm_task p = elim p.state [
    | stoped ↦ p
    | _ ↦
        let q = record p { calls = delay_until p.waittime ∷ p.calls } in
        if ltb q.sum 1000 then (ppm_start (record q { state = start })).1 else (ppm_end_pause q).1
  ]

  -- The `switch` of `timerHandler`.
  dispatch : State → Ppm → Option (Bool × Ppm)
  unfolding ppm_data ppm_last ppm_start ppm_start_transfer ppm_pause
  dispatch start p = assert_zero? (ppm_data (record p { state = slot_data }))
  dispatch slot_data p =
      if ltb p.pos p.slots
      then assert_zero (ppm_start_transfer (record p { state = start }))
      else assert_zero (ppm_last (record p { state = last }))
  dispatch last p = some (ppm_pause (record p { state = pause }))
  dispatch pause p = assert_zero (ppm_start (record p { state = start }))
  dispatch stoped p = some (false, p)

  pub timer_handler : Ppm → Option (Bool × Ppm)
  unfolding dispatch
  timer_handler p = dispatch p.state p

  -- `n` expiries of the timer, one after the other.
  pub expiries : ℕ → Ppm → Option Ppm
  expiries zero p = some p
  expiries (suc n) p = follow (timer_handler p) (expiries n)

-- ===== src/Ppm/Tests.antt =====
-- Runs of the transmitter, and its theorems at concrete inputs.
use testsystem.Prelude.{ℕ, ◌+◌, ◌≡◌, refl, Bool, true, false, some, List, [], ◌∷◌, arith}
use testsystem.Prelude.Int.{ℤ, pos}
use testsystem.Ppm.{
  stoped, last, start, Call, set_pin, clear_pin, oneshot, Ppm, ppm_start, timer_handler, expiries,
}
use testsystem.Ppm.Frame.{frame, decode, duration, drive, heard}
use testsystem.Ppm.Invariant.{IsReady, Inv, ppm_start-Inv, timer_handler-Inv}
use testsystem.Ppm.Waveform.{frame_sent, receiver_reads_slots}
use testsystem.Ppm.Init.{Resources, IsGranted}

abbrev accept : List Call → ℕ → ℤ
accept calls t = pos 0

abbrev never : List Call → Bool
never calls = false

abbrev two_slots : Ppm
two_slots = record {
  slots = 2;
  slot = 100 ∷ 1000 ∷ [];
  waittime = 0;
  pos = 0;
  state = stoped;
  sum = 0;
  calls = [];
}

abbrev closing : Ppm
closing = record two_slots { pos = 2; state = last; sum = 900 }

abbrev closing_late : Ppm
closing_late = record two_slots { slot = 0 ∷ 200 ∷ []; pos = 2; state = last; sum = 1800 }

two_slots-IsReady : IsReady two_slots
two_slots-IsReady = omega arith

-- The frame of two slots: 500, 600, 500, 1500 and 500 us.
two_slots_frame :
    frame two_slots.slot
    ≡ (true, 500) ∷ (false, 600) ∷ (true, 500) ∷ (false, 1500) ∷ (true, 500) ∷ []
unfolding frame
two_slots_frame = refl

-- Nine expiries: a frame, its pause by the timer, and into the next frame.
two_slots_run :
    (expiries accept never 6 (ppm_start accept never two_slots).1)
    ≡ some (record two_slots {
      state = start;
      pos = 0;
      sum = 4000;
      calls =
          oneshot 500
          ∷ set_pin
          ∷ oneshot 900
          ∷ clear_pin
          ∷ oneshot 500
          ∷ set_pin
          ∷ oneshot 1500
          ∷ clear_pin
          ∷ oneshot 500
          ∷ set_pin
          ∷ oneshot 600
          ∷ clear_pin
          ∷ oneshot 500
          ∷ set_pin
          ∷ [];
    })
unfolding expiries timer_handler ppm_start
two_slots_run = refl

ppm_start-Inv_example : Inv (ppm_start accept never two_slots).1
ppm_start-Inv_example = ppm_start-Inv accept never two_slots two_slots-IsReady

timer_handler-Inv_example :
    let p = (ppm_start accept never two_slots).1 in
    (r : Bool × Ppm) × (timer_handler accept never p ≡ some r) × Inv r.1
timer_handler-Inv_example =
    timer_handler-Inv accept never (ppm_start accept never two_slots).1 (λ calls t. refl)
      ppm_start-Inv_example

frame_sent_example :
    (q : Ppm) × (expiries accept never 4 (ppm_start accept never two_slots).1 ≡ some q)
    × (q.state ≡ last)
    × (q.calls ≡ drive (frame (100 ∷ 1000 ∷ [])) [])
    × (duration (frame (100 ∷ 1000 ∷ [])) + q.sum ≡ 4500)
frame_sent_example = frame_sent accept never two_slots (λ calls t. refl) two_slots-IsReady

receiver_reads_slots_example :
    (q : Ppm) × (expiries accept never 4 (ppm_start accept never two_slots).1 ≡ some q)
    × (decode (heard q.calls []) ≡ 100 ∷ 1000 ∷ [])
receiver_reads_slots_example =
    receiver_reads_slots accept never two_slots (λ calls t. refl) two_slots-IsReady refl

abbrev plenty : List ℕ → Resources
plenty memory = record {
  has_ppm = true;
  slot_memory = some memory;
  has_timer = true;
  callback_status = pos 0;
  has_sem = true;
  old_waittime = 7;
  old_sum = 7;
}

plenty-IsGranted : IsGranted 4 (plenty (9 ∷ 9 ∷ 9 ∷ 9 ∷ [])) (9 ∷ 9 ∷ 9 ∷ 9 ∷ [])
plenty-IsGranted = record {
  ppm = refl;
  slot = refl;
  length_memory = refl;
  timer = refl;
  callback = refl;
  sem = refl;
}

abbrev no_timer : Resources
no_timer = record (plenty (9 ∷ [])) { has_timer = false }

-- ===== src/Rc/Tests.antt =====
-- Runs of the receiver, and its theorems at concrete inputs.
use testsystem.Prelude.{ℕ, ◌<◌, ◌≡◌, ◌⊎◌, refl, List, [], ◌∷◌, arith}
use testsystem.Prelude.Int.{pos}
use testsystem.Rc.{
  Channel, Rc, Answers, elapsed, irq_handler, overflow_channel, channel_get, rc_get, rc_min, rc_max,
}
use testsystem.Rc.Capture.{Event, edge, overflow, run, handle, IsSound, rc_get-run}
use testsystem.Rc.Freshness.{Seen, watch, pulse_lasts}
use testsystem.Rc.Setup.{claimed}

abbrev two_channels : Rc
two_channels = claimed 5 ∷ claimed 4 ∷ []

-- An edge behind a wrap: 65000 to 536 are 1072 ticks, and the code finds 1071.
elapsed_wrap : elapsed 65000 536 ≡ 1071
unfolding elapsed
elapsed_wrap = refl

abbrev edges : List Event
edges = edge 0 1000 ∷ edge 0 2500 ∷ overflow ∷ edge 1 700 ∷ []

rc_get-run_example : (◌≡◌ {A = ℕ} 1500 0) ⊎ ((rc_min < 1500) × (1500 < rc_max))
unfolding run handle rc_get
rc_get-run_example = rc_get-run edges two_channels 0 1500 sound refl
  where
    sound : IsSound (claimed 5) × (IsSound (claimed 4) × Unit {0})
    sound = (ground arith, (ground arith, tt))

-- A pulse of 1500 ticks, an overflow, and an edge after 20000 ticks that ends no pulse.
abbrev risen : Channel
risen = record (claimed 5) { raw = 1000 }

pulse_lasts_example :
    channel_get (watch (Seen.overflow ∷ Seen.edge 22500 ∷ []) (irq_handler 2500 risen)) ≡ 1500
unfolding irq_handler overflow_channel
pulse_lasts_example = pulse_lasts (Seen.overflow ∷ Seen.edge 22500 ∷ []) 2500 risen refl (refl, tt)

abbrev agrees : Answers
agrees = record { set_callback = pos 0; set_period = pos 0; uninitialised = pos 77 }

abbrev eight : List ℕ
eight = 5 ∷ 4 ∷ 3 ∷ 2 ∷ 7 ∷ 6 ∷ 1 ∷ 0 ∷ []

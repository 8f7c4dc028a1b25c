-- ===== src/Rctest/Tests.antt =====
-- The set-up of the receiver and a line of the task, at concrete inputs.
use testsystem.Prelude.{
  ℕ, ◌≡◌, ◌↔◌, refl, Bool, true, false, List, [], ◌∷◌, ◌++◌, map, some, all, All,
}
use testsystem.Prelude.Int.{pos, is_negative}
use testsystem.Rc.{
  Answers, rc_init, rc_setup, find_free, irq_handler, overflow_channel, channel_get, elapsed,
}
use testsystem.Rc.Freshness.{watch}
use testsystem.Rc.Setup.{Succeeds}
use testsystem.Rctest.{created, captures, rc_task_init, rc_test_round, setup_captures}
use testsystem.Rctest.Start.{ready, rc_task_init_iff}
use testsystem.Rctest.Line.{Signal, edge, overflow, run, seen_by, shown, rc_test_round-created}

abbrev present : ℕ → Bool
present u = true

abbrev accepts : ℕ → Answers
accepts u = record { set_callback = pos 0; set_period = pos 0; uninitialised = pos 77 }

starts : rc_task_init present accepts true (pos 0) ≡ created ready
unfolding rc_task_init rc_init setup_captures rc_setup find_free
starts = refl

rc_task_init_iff_example : (rc_task_init present accepts true (pos 0) ≡ created ready) ↔ (
    (all present captures ≡ true)
    × (true ≡ true)
    × (is_negative (pos 0) ≡ false)
    × All (λ u. Succeeds (accepts u)) captures
    × (ready ≡ ready))
rc_task_init_iff_example = rc_task_init_iff present accepts true (pos 0) ready

-- A pulse of 1500 ticks at the unit 3, an overflow, and an edge at the unit 7.
abbrev signals : List Signal
signals = edge 3 1000 ∷ edge 3 2500 ∷ overflow ∷ edge 7 700 ∷ []

third_channel :
    map (λ u. shown (seen_by u signals) u) captures ++ (0 ∷ 0 ∷ [])
    ≡ 0 ∷ 0 ∷ 1500 ∷ 0 ∷ 700 ∷ 0 ∷ 0 ∷ 0 ∷ []
unfolding watch irq_handler overflow_channel channel_get elapsed
third_channel = refl

rc_test_round-created_example :
    rc_test_round (run signals ready)
    ≡ some (map (λ u. shown (seen_by u signals) u) captures ++ (0 ∷ 0 ∷ []))
rc_test_round-created_example =
    rc_test_round-created present accepts true (pos 0) ready signals starts

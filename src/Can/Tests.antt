-- ===== src/Can/Tests.antt =====
-- Runs of the error reports, and their theorems at concrete inputs.
use testsystem.Prelude.{ℕ, ◌+◌, ◌≤◌, ◌^◌, ◌≡◌, refl, ◌||◌, some, List, [], ◌∷◌, ◌++◌, arith}
use testsystem.Prelude.Bits.{bit}
use testsystem.Prelude.Int.{pos}
use testsystem.Can.Echo
use testsystem.Can.Echo.{CanMsg, run_echo, idle, InTime, run_echo-arrivals}
use testsystem.Can.{
  error, error_data, unknown, can_err_names, can_err_data_names, print_bits, print_can_error,
  no_errors, Event, reported, polled, can_test_error, take_errors, run,
}
use testsystem.Can.Polling.{
  as_count, times_printed, times_reported, the_error, the_data, printed_error, printed_data,
  reported_error, reported_data, run-all_reported,
}

-- The joined name stands at bit 2, and bit 6 has none left.
two_errors :
    print_can_error 68 (2 ^ 24)
    ≡ some (error "CAN_ERR_TRXCAN_ERR_ACK" ∷ unknown 6 ∷ error_data "CAN_ERR_PROT_LOC_UNSPEC" ∷ [])
unfolding print_can_error print_bits can_err_names can_err_data_names
two_errors = refl

abbrev two_polls : List Event
two_polls = reported 1 2 ∷ reported 4 0 ∷ polled ∷ reported 0 8 ∷ polled ∷ []

two_polls-run : run two_polls no_errors ≡ ((5, 2) ∷ [], record { can_err = 0; can_err_data = 8 })
unfolding run can_test_error take_errors
two_polls-run = refl

run-all_reported_example :
    let (masks, s) = run two_polls no_errors in
    ((printed_error 2 masks || bit 2 s.can_err) ≡ reported_error 2 two_polls)
    × ((printed_data 2 masks || bit 2 s.can_err_data) ≡ reported_data 2 two_polls)
    × (times_printed the_error 2 masks + as_count (bit 2 s.can_err)
        ≤ times_reported the_error 2 two_polls)
    × (times_printed the_data 2 masks + as_count (bit 2 s.can_err_data)
        ≤ times_reported the_data 2 two_polls)
    × ((run (two_polls ++ (polled ∷ [])) no_errors).1.can_err ≡ 0)
run-all_reported_example = run-all_reported 2 two_polls

-- Two messages meet a queue with two places, and one more comes behind a round.
abbrev message : ℕ → CanMsg
message n = record { id = 0x4ab; ts = n; length_field = 1; bytes = n ∷ [] }

abbrev traffic : List Echo.Event
traffic =
    Echo.arrived (message 1) (pos 0)
    ∷ Echo.arrived (message 2) (pos 0)
    ∷ Echo.polled
    ∷ Echo.arrived (message 3) (pos 0)
    ∷ []

run_echo-arrivals_example :
    (s : Echo.EchoTest) × (run_echo 2 (traffic ++ (Echo.polled ∷ Echo.polled ∷ [])) idle ≡ some s)
    × (s.sent ≡ message 1 ∷ message 2 ∷ message 3 ∷ [])
    × (s.printed ≡ message 1 ∷ message 2 ∷ message 3 ∷ [])
    × (s.queue ≡ [])
run_echo-arrivals_example = run_echo-arrivals 2 traffic in_time
  where
    in_time : InTime 2 0 traffic
    in_time = (refl, omega arith, (refl, omega arith, (refl, omega arith, tt)))

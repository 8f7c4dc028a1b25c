-- ===== src/Can/Link.antt =====
-- Two boards on a bus, one with the CAN test in the sending mode and one in the receiving mode.
pub mod Turns
pub mod Delivery
use testsystem.Prelude.{
  ℕ, zero, suc, ◌+◌, ◌≤◌, ◌≡◌, refl, sym, ap, ◌∙◌, subst, Bool, true, false, Option, none, some,
  List, [], ◌∷◌, ◌++◌, append-nil, arith, replicate, if◌then◌else◌,
}
use testsystem.Prelude.Int.{ℤ, is_negative}
use testsystem.Prelude.Task.{
  Outcome, done, Task, ◌>>=◌, ◌>>◌, pure, is_zero, checked, Ensures, Ensures-and_then,
  checked-Ensures,
}
use testsystem.Can.{Errors, no_errors, can_test_error, take_errors}
use testsystem.Can.Modes.{
  Output, msg_received, nothing, send_failed, can_error, test_msg, recv_filter, error_line,
  recv_line, recv_start, can_register, recv_round, send_start, send_round,
}
use testsystem.Flexcan.{CanMsg, CanFilter, Can}
use testsystem.Flexcan.Bus.{Node, accepts}

-- Whether the sender is up, and the receiving controller.
pub record Wire : Type 0 where
  pub sender_up : Bool
  pub node : Node

abbrev pub wire : Bool → Bool → Option (ℤ × CanFilter) → List CanMsg → Wire
wire sender up filter arrived = record {
  sender_up = sender;
  node = record { is_up = up; filter = filter; arrived = arrived };
}

-- What the drivers of both boards do to the bus between them: no message is lost, one that
-- passes the filter arrives, and messages are received in the order of their arrival.
pub record Linked {W : Type 0} (sender receiver : Can W) : Type 0 where
  pub view : W → Wire
  pub sender_ups :
      (b : Bool) (f : Option (ℤ × CanFilter)) (ms : List CanMsg) (w : W)
      → view w ≡ wire false b f ms
      → (is_zero (sender.up w).0 ≡ true) × (view (sender.up w).1 ≡ wire true b f ms)
  pub receiver_ups :
      (b : Bool) (f : Option (ℤ × CanFilter)) (ms : List CanMsg) (w : W)
      → view w ≡ wire b false f ms
      → (is_zero (receiver.up w).0 ≡ true) × (view (receiver.up w).1 ≡ wire b true f ms)
  pub registers :
      (b : Bool) (f : CanFilter) (w : W)
      → view w ≡ wire b true none []
      → let (i, w') = receiver.register_filter f w in
        (is_negative i ≡ false) × (view w' ≡ wire b true (some (i, f)) [])
  pub sends :
      (m : CanMsg) (i : ℤ) (f : CanFilter) (ms : List CanMsg) (w : W)
      → view w ≡ wire true true (some (i, f)) ms
      → (is_negative (sender.send m w).0 ≡ false)
        × (view (sender.send m w).1
            ≡ wire true true (some (i, f)) (if accepts f m.id then ms ++ (m ∷ []) else ms))
  pub receives :
      (m : CanMsg) (i : ℤ) (f : CanFilter) (ms : List CanMsg) (w : W)
      → view w ≡ wire true true (some (i, f)) (m ∷ ms)
      → let (ret, got, w') = receiver.recv i w in
        (is_zero ret ≡ true) × (got ≡ m) × (view w' ≡ wire true true (some (i, f)) ms)
  pub empties :
      (i : ℤ) (f : CanFilter) (w : W)
      → view w ≡ wire true true (some (i, f)) []
      → let (ret, got, w') = receiver.recv i w in
        (is_zero ret ≡ false) × (view w' ≡ wire true true (some (i, f)) [])

-- A round of either board, or errors that its interrupt reports.
pub data Step : Type 0 where
  send_turn recv_turn : Step
  sender_error receiver_error : ℕ → ℕ → Step

-- The bus, and of each board its globals and what it has printed.
pub record Boards (W : Type 0) : Type 0 where
  pub bus : W
  pub sender_errors : Errors
  pub receiver_errors : Errors
  pub sender_out : List Output
  pub receiver_out : List Output

module _ {W : Type 0} (sender receiver : Can W) (filter_id : ℤ) where
  abbrev pub sent : List Output × W × Errors → Boards W → Boards W
  sent (out, w, errors) s = record s {
    bus = w;
    sender_errors = errors;
    sender_out = s.sender_out ++ out;
  }

  abbrev pub got : Option (List Output × W × Errors) → Boards W → Option (Boards W)
  got none s = none
  got (some (out, w, errors)) s =
      some (record s { bus = w; receiver_errors = errors; receiver_out = s.receiver_out ++ out })

  abbrev pub and_run : Option (Boards W) → (Boards W → Option (Boards W)) → Option (Boards W)
  and_run none k = none
  and_run (some s) k = k s

  -- The steps one after another. `none` is a read outside a message.
  unfoldable pub run_boards : List Step → Boards W → Option (Boards W)
  run_boards [] s = some s
  run_boards (send_turn ∷ steps) s =
      run_boards steps (sent (send_round sender s.bus s.sender_errors) s)
  run_boards (recv_turn ∷ steps) s =
      and_run (got (recv_round receiver filter_id s.bus s.receiver_errors) s) (run_boards steps)
  run_boards (sender_error err err_data ∷ steps) s =
      run_boards steps (record s { sender_errors = can_test_error err err_data s.sender_errors })
  run_boards (receiver_error err err_data ∷ steps) s =
      run_boards steps
        (record s { receiver_errors = can_test_error err err_data s.receiver_errors })

abbrev pub times_sent : List Step → ℕ
times_sent [] = 0
times_sent (send_turn ∷ steps) = suc (times_sent steps)
times_sent (step ∷ steps) = times_sent steps

-- The printed messages, and the printed failures.
abbrev pub messages : List Output → List Output
messages [] = []
messages (msg_received n bytes ∷ out) = msg_received n bytes ∷ messages out
messages (o ∷ out) = messages out

abbrev pub failures : List Output → List Output
failures [] = []
failures (send_failed ∷ out) = send_failed ∷ failures out
failures (o ∷ out) = failures out

-- The line of a message of the sending mode.
abbrev pub test_line : Output
test_line = msg_received 8 test_msg.bytes

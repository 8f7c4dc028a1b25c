-- ===== src/Can/Modes.antt =====
-- The modes of `can_task` in src/c28x/can_test.c that only receive, only send, or toggle a pin, each
-- as its start and a round of its loop.
-- The CAN driver is that of the other CAN tests, and whether `can_init` finds the controller is a
-- parameter. A round of the first two modes ends with the errors that the interrupt has reported.
use Prim.Native.Nat.{bit_or}
use testsystem.Prelude.{
  ℕ, zero, suc, Bool, true, false, not, Option, none, some, List, [], ◌∷◌, ◌++◌, length, take, leb,
  if◌then◌else◌,
}
use testsystem.Prelude.Int.{ℤ, is_negative}
use testsystem.Prelude.Task.{done, asserted, Task, ◌>>=◌, ◌>>◌, pure, assert, checked, is_zero}
use testsystem.Can.{Errors, take_errors}
use testsystem.Flexcan.{CanMsg, CanFilter, Can}

-- What a round prints: a message with its length and data, that there was none, that it could not
-- send, and the masks for `print_can_error`.
pub data Output : Type 0 where
  msg_received : ℕ → List ℕ → Output
  nothing send_failed : Output
  can_error : ℕ → ℕ → Output

-- The message of the sending mode, and the filter of the receiving mode.
abbrev pub test_msg : CanMsg
test_msg = record {
  id = 0x4AB;
  length = 8;
  bytes = 0x00 ∷ 0x11 ∷ 0x22 ∷ 0x33 ∷ 0x44 ∷ 0x55 ∷ 0x66 ∷ 0x77 ∷ [];
}

abbrev pub recv_filter : CanFilter
recv_filter = record { id = 0x4AB; mask = 0x00F }

-- The line of a message. `none` is a read outside its data.
abbrev pub msg_line : CanMsg → Option Output
msg_line m =
    if leb m.length (length m.bytes)
    then some (msg_received m.length (take m.length m.bytes))
    else none

abbrev pub recv_line : Bool → CanMsg → Option Output
recv_line true m = msg_line m
recv_line false m = some nothing

abbrev pub error_line : Option (ℕ × ℕ) → List Output
error_line none = []
error_line (some (err, err_data)) = can_error err err_data ∷ []

-- A line, and then the errors.
abbrev pub then_errors : {W : Type 0} → List Output → W → Errors → List Output × W × Errors
then_errors out w s = let (taken, s') = take_errors s in (out ++ error_line taken, w, s')

module _ {W : Type 0} (can : Can W) where
  abbrev pub can_register : CanFilter → Task W ℤ
  can_register filter w =
      let (ret, w') = can.register_filter filter w in
      if is_negative ret then asserted else done ret w'

  -- The id of the filter.
  unfoldable pub recv_start : Bool → Task W ℤ
  recv_start found = do assert found; (λ w. checked (can.up w)); can_register recv_filter

  -- The start of the echo mode: the ids of the filters whose messages go to `can_test_msg_received`.
  -- CAN_EFF_FLAG is a parameter.
  unfoldable pub echo_start : ℕ → Bool → Task W (ℤ × ℤ)
  echo_start can_eff_flag found = do
    assert found
    (λ w. checked (can.up w))
    first ← can_register (record { id = 0x4AB; mask = 0xFFC })
    second ← can_register (record { id = bit_or can_eff_flag 0x002C0000; mask = 0x002FFFFE })
    pure (first, second)

  abbrev pub recv_printed : Option Output → W → Errors → Option (List Output × W × Errors)
  recv_printed none w s = none
  recv_printed (some line) w s = some (then_errors (line ∷ []) w s)

  unfoldable pub recv_round : ℤ → W → Errors → Option (List Output × W × Errors)
  recv_round filter_id w s =
      let (ret, m, w') = can.recv filter_id w in recv_printed (recv_line (is_zero ret) m) w' s

  unfoldable pub send_start : Bool → Task W (Unit {0})
  send_start found = do assert found; (λ w. checked (can.up w))

  unfoldable pub send_round : W → Errors → List Output × W × Errors
  send_round w s =
      let (ret, w') = can.send test_msg w in
      then_errors (if is_negative ret then send_failed ∷ [] else []) w' s

-- The two pins of the last mode: what drives `cantxa`, and the value of `canrxa`.
pub record Pins (W : Type 0) : Type 0 where
  pub set_tx : W → W
  pub toggle_tx : W → W
  pub rx_value : W → Bool

-- `==` of two truth values.
abbrev pub agree : Bool → Bool → Bool
agree true b = b
agree false b = not b

module _ {W : Type 0} (pins : Pins W) where
  -- A round, from `value` to the next one.
  unfoldable pub toggle_round : Bool → Task W Bool
  toggle_round value w =
      let w' = pins.toggle_tx w in
      if agree (pins.rx_value w') (not value) then done (not value) w' else asserted

  unfoldable pub toggle_rounds : ℕ → Bool → Task W Bool
  toggle_rounds zero value = pure value
  toggle_rounds (suc n) value = toggle_round value >>= toggle_rounds n

  -- `n` rounds of the mode, where `gpioPin_init` finds both pins.
  unfoldable pub toggle_task : ℕ → Bool → Bool → Task W Bool
  toggle_task n tx_found rx_found = do
    assert tx_found
    assert rx_found
    (λ w. toggle_rounds n true (pins.set_tx w))

-- `can_test`: whether the task is created is a parameter.
abbrev pub can_test : {W : Type 0} → Bool → Task W (Unit {0})
can_test created = assert created

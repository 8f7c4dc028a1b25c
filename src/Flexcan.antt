-- ===== src/Flexcan.antt =====
-- The CAN tests of src/kv4x/flexcan.c and src/s32k/flexcan.c: the task that sends a message and
-- expects it back, and the task that answers each message under another id.
-- The CAN driver is a parameter. An endless loop runs a number of rounds.
pub mod Bus
pub mod Echo
pub mod Answer
pub mod Dcan
mod Tests
use testsystem.Prelude.{
  ℕ, zero, suc, ◌+◌, ◌-◌, ◌%◌, ◌^◌, Bool, true, false, not, List, [], ◌∷◌, ◌==◌, if◌then◌else◌,
}
use testsystem.Prelude.Int.{ℤ, pos, negsuc}
use testsystem.Prelude.Task.{
  Outcome, done, asserted, Task, ◌>>=◌, ◌>>◌, pure, assert, checked, checked_result, and_then,
}

-- `struct can_msg`, without its time stamp.
pub record CanMsg : Type 0 where
  pub id : ℕ
  pub length : ℕ
  pub bytes : List ℕ

pub record CanFilter : Type 0 where
  pub id : ℕ
  pub mask : ℕ

-- The calls of the driver, each with its return value. `can_recv` takes the id of a filter.
pub record Can (W : Type 0) : Type 0 where
  pub up : W → ℤ × W
  pub register_filter : CanFilter → W → ℤ × W
  pub send : CanMsg → W → ℤ × W
  pub recv : ℤ → W → ℤ × CanMsg × W

abbrev pub msg : CanMsg
msg = record {
  id = 0x123;
  length = 8;
  bytes = 0x01 ∷ 0x12 ∷ 0x34 ∷ 0x56 ∷ 0x78 ∷ 0x9A ∷ 0xAB ∷ 0xCD ∷ [];
}

abbrev pub filter : CanFilter
filter = record { id = 0x123; mask = 0xFF0 }

abbrev pub is_minus_one : ℤ → Bool
is_minus_one (pos n) = false
is_minus_one (negsuc n) = n == 0

-- The comparison of the data, byte by byte. An array that is too short does not compare.
unfoldable pub compare_data : {W : Type 0} → List ℕ → List ℕ → Task W (Unit {0})
compare_data received [] = pure tt
compare_data [] (y ∷ ys) = λ w. asserted
compare_data (x ∷ xs) (y ∷ ys) = assert (x == y) >> compare_data xs ys

-- What the echo test asserts of a message that it has received.
unfoldable pub check_msg : {W : Type 0} → CanMsg → Task W (Unit {0})
check_msg msg_recv = do
  assert (msg_recv.id == msg.id)
  assert (msg_recv.length == msg.length)
  compare_data msg_recv.bytes msg.bytes

module _ {W : Type 0} (can : Can W) where
  abbrev pub can_up : Task W (Unit {0})
  can_up w = checked (can.up w)

  abbrev pub can_register_filter : Task W ℤ
  can_register_filter w =
      let (ret, w') = can.register_filter filter w in
      if is_minus_one ret then asserted else done ret w'

  abbrev pub can_send : CanMsg → Task W (Unit {0})
  can_send m w = checked (can.send m w)

  abbrev pub can_recv : ℤ → Task W CanMsg
  can_recv filter_id w = checked_result (can.recv filter_id w)

  unfoldable pub echo_round : ℤ → Task W (Unit {0})
  echo_round filter_id = do can_send msg; msg_recv ← can_recv filter_id; check_msg msg_recv

  unfoldable pub echo_rounds : ℕ → ℤ → Task W (Unit {0})
  echo_rounds zero filter_id = pure tt
  echo_rounds (suc n) filter_id = echo_round filter_id >> echo_rounds n filter_id

  unfoldable pub kv4x_echo_task : ℕ → Task W (Unit {0})
  kv4x_echo_task n = do can_up; filter_id ← can_register_filter; echo_rounds n filter_id

  unfoldable pub s32k_echo_task : ℕ → Task W (Unit {0})
  s32k_echo_task n = do filter_id ← can_register_filter; can_up; echo_rounds n filter_id

  -- A round of the answering task, which changes the id by `answer`.
  unfoldable pub answer_round : (ℕ → ℕ) → ℤ → Task W (Unit {0})
  answer_round answer filter_id = do
    m ← can_recv filter_id
    can_send (record m { id = answer m.id })

  unfoldable pub answer_rounds : (ℕ → ℕ) → ℕ → ℤ → Task W (Unit {0})
  answer_rounds answer zero filter_id = pure tt
  answer_rounds answer (suc n) filter_id =
      answer_round answer filter_id >> answer_rounds answer n filter_id

  unfoldable pub answer_task : (ℕ → ℕ) → ℕ → Task W (Unit {0})
  answer_task answer n = do
    can_up
    filter_id ← can_register_filter
    answer_rounds answer n filter_id

-- `msg.id -= 0x100` and `msg.id += 0x100`, on 32 bits.
abbrev pub kv4x_answer : ℕ → ℕ
kv4x_answer id = (id + 2 ^ 32 - 0x100) % 2 ^ 32

abbrev pub s32k_answer : ℕ → ℕ
s32k_answer id = (id + 0x100) % 2 ^ 32

-- ===== src/Sd.antt =====
-- The SD card test of src/stm32/sdtest.c: `sdtest_task` and `testReadWrite`.
-- The card and its driver are a parameter, a `Host`: each call has a status, a result and an effect on
-- the world. Waits of the task are left out. `CMD` and `ACMD` only mark the commands.
pub mod Card
pub mod Transfer
pub mod Start
mod Tests
use testsystem.Prelude.{
  ℕ, zero, suc, ◌+◌, ◌*◌, ◌/◌, ◌%◌, ◌^◌, Bool, true, false, ◌&&◌, List, [], ◌∷◌, ◌==◌,
  if◌then◌else◌, replicate,
}
use testsystem.Prelude.Int.{ℤ}
use testsystem.Prelude.Task.{
  waiting, Task, ◌>>=◌, ◌>>◌, pure, assert, and_then, checked, checked_result,
}

pub data Cmd : Type 0 where
  cmd acmd : ℕ → Cmd

-- The calls of the driver. The result of a command is `res.data[3]`.
pub record Host (W : Type 0) : Type 0 where
  pub send_command : Cmd → ℕ → W → ℤ × ℕ × W
  pub set_block_size : W → ℤ × W
  pub read : Cmd → ℕ → ℕ → W → ℤ × List ℕ × W
  pub write : Cmd → ℕ → List ℕ → W → ℤ × W
  pub set_bus_wide : W → ℤ × W
  pub set_clock : ℕ → W → ℤ × W

-- `memcmp(…) == 0` over arrays of one length.
unfoldable pub same_bytes : List ℕ → List ℕ → Bool
same_bytes [] ys = true
same_bytes (x ∷ xs) [] = false
same_bytes (x ∷ xs) (y ∷ ys) = x == y && same_bytes xs ys

-- The length of the two buffers.
abbrev pub data_len : ℕ
data_len = 4 * 1024

-- The arguments of CMD(8) and of ACMD(41).
abbrev pub check_arg : ℕ
check_arg = 2 ^ 8 + 0x42

abbrev pub ocr_arg : ℕ
ocr_arg = 2 ^ 19 + 2 ^ 20 + 2 ^ 31 + 2 ^ 28 + 2 ^ 30

module _ {W : Type 0} (host : Host W) where
  abbrev pub command : Cmd → ℕ → Task W ℕ
  command c arg w = checked_result (host.send_command c arg w)

  unfoldable pub test_read_write : Task W (Unit {0})
  test_read_write = do
    λ w. checked (host.set_block_size w)
    bytes ← λ w. checked_result (host.read (cmd 18) 0 data_len w)
    command (cmd 12) 0
    λ w. checked (host.write (cmd 25) 0 bytes w)
    command (cmd 12) 0
    bytes2 ← λ w. checked_result (host.read (cmd 18) 0 data_len w)
    command (cmd 12) 0
    assert (same_bytes bytes bytes2)

  -- `do … while`, with a bound on its turns.
  unfoldable pub wait_ready : ℕ → Task W (Unit {0})
  wait_ready zero = λ w. waiting
  wait_ready (suc turns) =
      let rest = wait_ready turns in
      do
        command (cmd 55) 0
        r ← command (acmd 41) ocr_arg
        if r / 2 ^ 31 % 2 == 1 then pure tt else rest

  -- Up to `vTaskSuspend`.
  unfoldable pub sdtest_task : ℕ → Task W (Unit {0})
  sdtest_task turns = do
    command (cmd 0) 0
    r ← command (cmd 8) check_arg
    assert (r % 2 ^ 12 == check_arg)
    wait_ready turns
    command (cmd 2) 0
    r3 ← command (cmd 3) 0
    let rca = r3 / 2 ^ 16 * 2 ^ 16
    command (cmd 7) rca
    test_read_write
    command (cmd 55) rca
    command (acmd 6) 2
    λ w. checked (host.set_bus_wide w)
    test_read_write
    λ w. checked (host.set_clock 48000000 w)
    test_read_write

-- ===== src/Spitest.antt =====
-- The tests of the SPI in src/vf610/spitest.c and src/am57xx/spitest.c: `spitest_init`, and rounds of
-- `spiTask`, whose `slave` is the triple of the slaves.
-- The driver is a parameter. A slave of it is `none` for NULL; a transfer answers with its status and
-- the words received. `BIT(7)` is 2 ^ 7. The prints are their values; `OS_CREATE_TASK`, whose result
-- is not used, and the delays are left out.
pub mod Sensors
pub mod Overrun
mod Tests
use Prim.Native.Nat.{bit_or}
use testsystem.Prelude.{
  ℕ, zero, suc, ◌+◌, ◌-◌, ◌*◌, ◌/◌, ◌^◌, Bool, true, false, Option, none, some, List, [], ◌∷◌, ◌++◌,
  leb, ◌==◌, if◌then◌else◌, length,
}
use testsystem.Prelude.Int.{ℤ}
use testsystem.Prelude.Task.{
  Outcome, done, asserted, outside, Task, ◌>>=◌, ◌>>◌, pure, and_then, checked_result,
}

-- `struct spi_opt`. Its field `gpio` is SPI_OPT_GPIO_DIS throughout.
pub record SpiOpt : Type 0 where
  pub lsb : Bool
  pub cpol : Bool
  pub cpha : Bool
  pub cs : ℕ
  pub cs_low_inactive : Bool
  pub size : ℕ
  pub wdelay : ℕ
  pub cs_hold : ℕ
  pub cs_delay : ℕ
  pub baudrate : ℕ

-- The options of the first slave, on both boards.
abbrev pub first_opt : SpiOpt
first_opt = record {
  lsb = false;
  cpol = false;
  cpha = false;
  cs = 0;
  cs_low_inactive = false;
  size = 8;
  wdelay = 0;
  cs_hold = 8;
  cs_delay = 500;
  baudrate = 500000;
}

-- The calls of the driver: the interface, a slave of it, and a transfer with what the two arrays
-- hold.
pub record Spi (W S : Type 0) : Type 0 where
  pub spi_init : W → Bool × W
  pub slave_init : SpiOpt → W → Option S × W
  pub transfer : S → List ℕ → List ℕ → W → ℤ × List ℕ × W

-- `CONFIG_ASSERT(spi != NULL)` and `CONFIG_ASSERT(slave[i] != NULL)`.
abbrev pub has_spi : {W : Type 0} → Bool × W → Outcome W (Unit {0})
has_spi (true, w) = done tt w
has_spi (false, w) = asserted

abbrev pub has_slave : {W S : Type 0} → Option S × W → Outcome W S
has_slave (none, w) = asserted
has_slave (some s, w) = done s w

-- The bytes of an array of 16-bit words from the first on, the low byte of a word first.
unfoldable pub fill : ℕ → ℕ → List ℕ → List ℕ
fill byte n [] = []
fill byte n (word ∷ words) =
    let rest = fill byte (n - 2) words in
    (if leb 2 n then byte + 256 * byte else if n == 1 then word / 256 * 256 + byte else word) ∷ rest

-- `memset` over an array of 16-bit words.
unfoldable pub memset : {W : Type 0} → List ℕ → ℕ → ℕ → Task W (List ℕ)
memset words byte n w = if leb n (2 * length words) then done (fill byte n words) w else outside

module _ {W S : Type 0} (spi : Spi W S) where
  unfoldable pub vf610_init : Task W (S × S × S)
  vf610_init = do
    λ w. has_spi (spi.spi_init w)
    s0 ← λ w. has_slave (spi.slave_init first_opt w)
    s1 ← λ w. has_slave (spi.slave_init (record first_opt { cs_hold = 6; cs_delay = 8; cs = 1 }) w)
    s2 ← λ w. has_slave (spi.slave_init (record first_opt { cs_hold = 6; cs_delay = 8; cs = 2 }) w)
    pure (s0, s1, s2)

  unfoldable pub am57xx_init : Task W (S × S × S)
  am57xx_init = do
    λ w. has_spi (spi.spi_init w)
    s0 ← λ w. has_slave (spi.slave_init first_opt w)
    s1 ← λ w.
        has_slave
          (spi.slave_init (record first_opt { cs_hold = 6; cs_delay = 8; cs = 1; size = 16 }) w)
    s2 ← λ w.
        has_slave
          (spi.slave_init (record first_opt { cs_hold = 6; cs_delay = 8; cs = 3; size = 16 }) w)
    pure (s0, s1, s2)

  -- `spiSlave_transfer` with `CONFIG_ASSERT(ret == 0)`.
  unfoldable pub exchange : S → List ℕ → List ℕ → Task W (List ℕ)
  exchange s send recv w = checked_result (spi.transfer s send recv w)

  -- A block that reads a register twice, from two slaves, with the lines that it prints.
  unfoldable pub read_twice : S → S → ℕ → Task W (List (List ℕ))
  read_twice s t register = do
    let send = bit_or register (2 ^ 7) ∷ 0xff ∷ []
    recv ← exchange s send (0x4243 ∷ 0x4445 ∷ [])
    again ← exchange t send recv
    pure (recv ∷ again ∷ [])

  unfoldable pub vf610_round : S × S × S → Task W (List (List ℕ))
  vf610_round (s0, s1, s2) = do
    mcu ← read_twice s0 s0 0x75
    lsm ← read_twice s1 s1 0xf
    lsm2 ← read_twice s2 s1 0xf
    pure (mcu ++ (lsm ++ lsm2))

  -- A block of the ADC, with what its arrays `sendData` and `recvData` hold on the stack before.
  unfoldable pub read_adc : S → List ℕ × List ℕ → Task W (List (List ℕ))
  read_adc s (stack_send, stack_recv) = do
    let bytes = 2 * length stack_send * 2
    cleared ← memset stack_send 0xff bytes
    send ← memset cleared 0xff bytes
    recv ← exchange s send stack_recv
    again ← exchange s send recv
    pure (recv ∷ again ∷ [])

  unfoldable pub am57xx_round :
      List ℕ × List ℕ → List ℕ × List ℕ → S × S × S → Task W (List (List ℕ))
  am57xx_round stack1 stack2 (s0, s1, s2) = do
    mpu ← read_twice s0 s0 0x75
    adc ← read_adc s1 stack1
    adc2 ← read_adc s2 stack2
    pure (mpu ++ (adc ++ adc2))

  -- So many rounds of the task on the VF610, with the lines of each.
  unfoldable pub vf610_task : ℕ → S × S × S → Task W (List (List (List ℕ)))
  vf610_task zero slaves = pure []
  vf610_task (suc n) slaves = do
    lines ← vf610_round slaves
    rest ← vf610_task n slaves
    pure (lines ∷ rest)

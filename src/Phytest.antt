-- ===== src/Phytest.antt =====
-- The MDIO interface of src/imx6/phytest.c: `mac_mdioWrite`, `mac_mdioRead` and `ENET1_Handler`, which
-- meet in the semaphore `mii`, and the clock that `phytest_init` computes for it. The macros of the
-- register MMFR put its fields together, and the register is modelled by its fields. A function that
-- waits is two: what it does before the wait, and behind it.
pub mod Interface
pub mod Reads
pub mod Stale
pub mod Clock
pub mod Negotiation
mod Tests
use testsystem.Prelude.{
  ℕ, ◌+◌, ◌-◌, ◌%◌, Bool, true, false, ◌&&◌, Option, none, some, ◌==◌, leb, if◌then◌else◌, sub32,
}
use testsystem.Prelude.Int.{ℤ, pos, negsuc}

-- `ENET_MMFR_OP_READ` and `ENET_MMFR_OP_WRTIE`.
pub data Op : Type 0 where
  op_read op_write : Op

-- The register MMFR; ST and TA have their fixed values.
pub record Mmfr : Type 0 where
  pub op : Op
  pub pa : ℕ
  pub ra : ℕ
  pub value : ℕ  -- the field DATA

-- `struct mac`: its semaphore, and of its registers MMFR and the flag MII of EIR.
pub record Mac : Type 0 where
  pub mii : Bool
  pub eir_mii : Bool
  pub mmfr : Mmfr

-- A write of EIR clears the flags that are set in it.
unfoldable pub enet1_handler : Mac → Mac
enet1_handler mac = if mac.eir_mii then record mac { eir_mii = false; mii = true } else mac

abbrev pub write_frame : ℕ → ℕ → ℕ → Mmfr
write_frame id addr value = record { op = op_write; pa = id; ra = addr; value = value }

-- The field DATA is not given, and 0.
abbrev pub read_frame : ℕ → ℕ → Mmfr
read_frame id addr = record { op = op_read; pa = id; ra = addr; value = 0 }

unfoldable pub mdio_write_start : ℕ → ℕ → ℕ → Mac → Mac
mdio_write_start id addr value mac = record mac { mmfr = write_frame id addr value }

unfoldable pub mdio_read_start : ℕ → ℕ → Mac → Mac
mdio_read_start id addr mac = record mac { mmfr = read_frame id addr }

-- `xSemaphoreTake`: whether the semaphore was there.
abbrev pub take_mii : Mac → Bool × Mac
take_mii mac = (mac.mii, record mac { mii = false })

-- Behind the wait: the status, the value that a read stores, and the MAC.
unfoldable pub mdio_write_end : Mac → ℤ × Mac
mdio_write_end mac = let (taken, mac') = take_mii mac in (if taken then pos 0 else negsuc 0, mac')

unfoldable pub mdio_read_end : Mac → ℤ × Option ℕ × Mac
mdio_read_end mac =
    let (taken, mac') = take_mii mac in
    if taken then (pos 0, some mac'.mmfr.value, mac') else (negsuc 0, none, mac')

-- The first lines of `phytest_init`: the field MII_SPEED, `none` if the assertion on it fails, from
-- the clock of the peripherals. `div_round_up` is a macro of the HAL.
unfoldable pub mii_speed : (ℕ → ℕ → ℕ) → ℕ → Option ℕ
mii_speed div_round_up speed =
    let mii = sub32 (div_round_up speed 5000000) 1 in if leb mii 63 then some mii else none

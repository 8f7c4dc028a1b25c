-- ===== src/Phytest/Interface.antt =====
-- The interface at work: a task that reads and writes registers of phys, the transfer on the bus, and
-- the interrupt.
use testsystem.Prelude.{ℕ, ◌≡◌, Bool, true, false, ◌&&◌, some, ◌==◌, if◌then◌else◌}
use testsystem.Prelude.Int.{pos}
use testsystem.Phytest.{
  Op, op_read, op_write, Mmfr, Mac, enet1_handler, mdio_write_start, mdio_read_start,
  mdio_write_end, mdio_read_end,
}

-- Where the task stands: between two calls, in the wait of a read or a write, behind a call.
pub data Pc : Type 0 where
  between : Pc
  reading : (id addr : ℕ) → Pc
  writing : (id addr value : ℕ) → Pc
  has_read : (id addr value : ℕ) → Pc
  has_written : (id addr value : ℕ) → Pc

-- `regs` are the registers of the phys, `busy` whether a transfer is under way.
pub record System : Type 0 where
  pub pc : Pc
  pub mac : Mac
  pub busy : Bool
  pub regs : ℕ → ℕ → ℕ

abbrev pub update : (ℕ → ℕ → ℕ) → ℕ → ℕ → ℕ → ℕ → ℕ → ℕ
update regs id addr value i a = if i == id && a == addr then value else regs i a

-- The end of a transfer: a read brings the value into MMFR, a write changes the register.
abbrev pub transferred : Op → System → System
transferred op_read s = record s {
  busy = false;
  mac = record s.mac {
    eir_mii = true;
    mmfr = record s.mac.mmfr { value = s.regs s.mac.mmfr.pa s.mac.mmfr.ra };
  };
}
transferred op_write s = record s {
  busy = false;
  mac = record s.mac { eir_mii = true };
  regs = update s.regs s.mac.mmfr.pa s.mac.mmfr.ra s.mac.mmfr.value;
}

abbrev pub Idle : Pc → Type 0
Idle between = Unit
Idle (reading id addr) = ⊥
Idle (writing id addr value) = ⊥
Idle (has_read id addr value) = Unit
Idle (has_written id addr value) = Unit

-- A step in which no wait runs into its timeout. A write of MMFR starts a transfer.
pub data Step (s : System) : System → Type 0 where
  starts_read :
      (id addr : ℕ)
      → Idle s.pc
      → Step s (record s { pc = reading id addr; busy = true; mac = mdio_read_start id addr s.mac })
  starts_write :
      (id addr value : ℕ)
      → Idle s.pc
      → Step s (record s {
        pc = writing id addr value;
        busy = true;
        mac = mdio_write_start id addr value s.mac;
      })
  transfers : s.busy ≡ true → Step s (transferred s.mac.mmfr.op s)
  interrupts : Step s (record s { mac = enet1_handler s.mac })
  reads :
      (id addr value : ℕ) (mac : Mac)
      → s.pc ≡ reading id addr
      → mdio_read_end s.mac ≡ (pos 0, some value, mac)
      → Step s (record s { pc = has_read id addr value; mac = mac })
  writes :
      (id addr value : ℕ) (mac : Mac)
      → s.pc ≡ writing id addr value
      → mdio_write_end s.mac ≡ (pos 0, mac)
      → Step s (record s { pc = has_written id addr value; mac = mac })

pub data Reach (s : System) : System → Type 0 where
  here : Reach s s
  next : {t u : System} → Reach s t → Step t u → Reach s u

-- Behind `phytest_init` the semaphore is taken.
abbrev pub initial : Mmfr → (ℕ → ℕ → ℕ) → System
initial mmfr regs = record {
  pc = between;
  mac = record { mii = false; eir_mii = false; mmfr = mmfr };
  busy = false;
  regs = regs;
}

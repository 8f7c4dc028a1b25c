-- ===== src/Phytest/Stale.antt =====
-- A read behind a wait that ran into its timeout.
use testsystem.Prelude.{ℕ, ◌≡◌, refl, true, false, none}
use testsystem.Prelude.Int.{negsuc}
use testsystem.Phytest.{Mac, enet1_handler, mdio_read_start, mdio_read_end, read_frame}
use testsystem.Phytest.Interface.{
  between, reading, has_read, System, Step, starts_read, transfers, interrupts, reads,
}

-- A step, or the timeout of a read.
pub data LateStep (s : System) : System → Type 0 where
  in_time : {t : System} → Step s t → LateStep s t
  times_out :
      (id addr : ℕ) (mac : Mac)
      → s.pc ≡ reading id addr
      → mdio_read_end s.mac ≡ (negsuc 0, none, mac)
      → LateStep s (record s { pc = between; mac = mac })

pub data LateReach (s : System) : System → Type 0 where
  here : LateReach s s
  next : {t u : System} → LateReach s t → LateStep t u → LateReach s u

-- A read in its wait, the transfer under way.
abbrev pub waiting : ℕ → ℕ → (ℕ → ℕ → ℕ) → System
waiting id addr regs = record {
  pc = reading id addr;
  mac = record { mii = false; eir_mii = false; mmfr = read_frame id addr };
  busy = true;
  regs = regs;
}

-- A read that returns 0 while its transfer is still under way.
abbrev pub early : ℕ → ℕ → (ℕ → ℕ → ℕ) → System
early id addr regs = record {
  pc = has_read id addr 0;
  mac = record { mii = false; eir_mii = false; mmfr = read_frame id addr };
  busy = true;
  regs = regs;
}

-- If a read runs into its timeout and its transfer ends behind that, the next read can return 0
-- before its own transfer has ended, whatever the register holds.
pub early-LateReach :
    (id addr id' addr' : ℕ) (regs : ℕ → ℕ → ℕ)
    → LateReach (waiting id addr regs) (early id' addr' regs)
unfolding mdio_read_end mdio_read_start enet1_handler
early-LateReach id addr id' addr' regs =
    next
      (next
        (next (next (next here (times_out id addr _ refl refl)) (in_time (transfers refl)))
          (in_time interrupts))
        (in_time (starts_read id' addr' tt)))
      (in_time (reads id' addr' 0 _ refl refl))

-- ===== src/ClockTree.antt =====
-- The clock dump of src/am57xx/printClockTree.c: a table of registers, a table of registers that are
-- not read but printed with a fixed value, and the task that prints every register.
-- A register access answers by `read`, a parameter: the value of an address after the accesses made
-- before it. The task's final endless loop is left out.
pub mod Registers
pub mod Printing
mod Tests
use testsystem.Prelude.{ℕ, ◌+◌, Bool, true, false, List, [], ◌∷◌, ◌++◌, ◌==◌, if◌then◌else◌, add32}
use testsystem.ClockTree.Registers.{clkreg}

-- `struct ignorereg`: an address and the value to print.
abbrev pub IgnoreReg : Type 0
IgnoreReg = ℕ × ℕ

-- The seven entries; the others of the source stand in a comment.
abbrev pub ignorereg : List IgnoreReg
ignorereg =
    (0x4a005f00, 0x00000000)
    ∷ (0x4a005f10, 0x00000008)
    ∷ (0x4a005f14, 0x00000100)
    ∷ (0x4a005f24, 0x20000000)
    ∷ (0x4a005f28, 0x00000000)
    ∷ (0x4a005f2c, 0x00000000)
    ∷ (0x4a005f30, 0x00000000)
    ∷ []

-- The loop of `checkReg` over a table: whether the register may be read, and what `*value` holds.
unfoldable pub check_reg : List IgnoreReg → ℕ → ℕ → Bool × ℕ
check_reg [] reg value = (true, value)
check_reg ((addr, v) ∷ table) reg value =
    let rest = check_reg table reg value in if reg == addr then (false, v) else rest

-- The register as the IPU sees it.
abbrev pub physical : ℕ → ℕ
physical reg = add32 reg 0x20000000

-- The printed pairs of register and value, and the addresses that are accessed, in order.
pub record Dump : Type 0 where
  pub lines : List (ℕ × ℕ)
  pub reads : List ℕ

module _ (read : List ℕ → ℕ → ℕ) (table : List IgnoreReg) where
  -- The loop of `printClock_task`, with the accesses so far and the last `value`.
  unfoldable pub print_regs : List ℕ → List ℕ → ℕ → Dump
  print_regs [] done value = record { lines = []; reads = done }
  print_regs (reg ∷ regs) done value =
      let (may_read, ignored) = check_reg table reg value in
      let value' = if may_read then read done (physical reg) else ignored in
      let rest = print_regs regs (if may_read then done ++ (physical reg ∷ []) else done) value' in
      record { lines = (reg, value') ∷ rest.lines; reads = rest.reads }

unfoldable pub print_clock_task : (List ℕ → ℕ → ℕ) → ℕ → Dump
print_clock_task read value = print_regs read ignorereg clkreg [] value

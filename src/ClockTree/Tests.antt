-- ===== src/ClockTree/Tests.antt =====
-- A short dump, and the theorems on the clock dump at concrete inputs.
use testsystem.Prelude.{ℕ, ◌≡◌, refl, List, [], ◌∷◌, map, All, length}
use testsystem.ClockTree.{ignorereg, check_reg, physical, print_regs, print_clock_task}
use testsystem.ClockTree.Registers.{clkreg}
use testsystem.ClockTree.Printing.{
  ShowsFixed, readable, Avoids, print_clock_task_lem, print_clock_task-Avoids,
}

-- Each access returns the number of accesses before it.
abbrev counting : List ℕ → ℕ → ℕ
counting done addr = length done

short_dump :
    print_regs counting ignorereg (0x4a005000 ∷ 0x4a005f10 ∷ 0x4a008000 ∷ []) [] 0 ≡ record {
      lines = (0x4a005000, 0) ∷ (0x4a005f10, 8) ∷ (0x4a008000, 1) ∷ [];
      reads = 0x6a005000 ∷ 0x6a008000 ∷ [];
    }
unfolding print_regs check_reg
short_dump = refl

print_clock_task_lem_example :
    (map (λ (l : ℕ × ℕ). l.0) (print_clock_task counting 0).lines ≡ clkreg)
    × All (ShowsFixed ignorereg) (print_clock_task counting 0).lines
    × ((print_clock_task counting 0).reads ≡ map physical (readable ignorereg clkreg))
print_clock_task_lem_example = print_clock_task_lem counting 0

print_clock_task-Avoids_example : All Avoids (print_clock_task counting 0).reads
print_clock_task-Avoids_example = print_clock_task-Avoids counting 0

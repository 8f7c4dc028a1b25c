-- ===== src/ClockTree/Printing.antt =====
-- What the clock dump prints, and which registers it accesses.
use testsystem.Prelude.{
  ℕ, ◌<◌, ◌≡◌, ◌≢◌, refl, sym, ap, ◌∙◌, Bool, true, false, Option, none, some, List, [], ◌∷◌, ◌++◌,
  map, append_assoc, append-nil, arith, ltb, ◌==◌, if◌then◌else◌, Bool-cases, inl, inr, All,
  All-imp, all-All,
}
use mathlib.Core.List.{tail}
use testsystem.ClockTree.{IgnoreReg, ignorereg, check_reg, physical, print_regs, print_clock_task}
use testsystem.ClockTree.Registers.{clkreg}

-- The registers of a table.
abbrev pub is_listed : List IgnoreReg → ℕ → Bool
is_listed [] reg = false
is_listed ((addr, v) ∷ table) reg = if reg == addr then true else is_listed table reg

abbrev pub readable : List IgnoreReg → List ℕ → List ℕ
readable table [] = []
readable table (reg ∷ regs) =
    if is_listed table reg then readable table regs else reg ∷ readable table regs

pub readable-All {κ} :
    (P : ℕ → Type κ) (table : List IgnoreReg) (regs : List ℕ)
    → All P regs
    → All P (readable table regs)
readable-All P table [] a = tt
readable-All P table (reg ∷ regs) a =
    elim (is_listed table reg)
      as (λ t. All P (if t then readable table regs else reg ∷ readable table regs)) [
        | true ↦ readable-All P table regs a.1
        | false ↦ (a.0, readable-All P table regs a.1)
      ]

check_reg-listed :
    (table : List IgnoreReg) (reg value : ℕ)
    → (check_reg table reg value).0 ≡ (if is_listed table reg then false else true)
unfolding check_reg
check_reg-listed [] reg value = refl
check_reg-listed ((addr, v) ∷ table) reg value = ground (arith, check_reg-listed table reg value)

module _ (read : List ℕ → ℕ → ℕ) (table : List IgnoreReg) where
  print_regs-lines :
      (regs done : List ℕ) (value : ℕ)
      → map (λ (l : ℕ × ℕ). l.0) (print_regs read table regs done value).lines ≡ regs
  unfolding print_regs
  print_regs-lines [] done value = refl
  print_regs-lines (reg ∷ regs) done value = ap (λ rs. reg ∷ rs) (print_regs-lines regs _ _)

  print_regs-reads :
      (regs done : List ℕ) (value : ℕ)
      → (print_regs read table regs done value).reads ≡ done ++ map physical (readable table regs)
  unfolding print_regs
  print_regs-reads [] done value = sym (append-nil done)
  print_regs-reads (reg ∷ regs) done value = elim (Bool-cases (is_listed table reg)) [
    | inl listed ↦ simp (check_reg-listed, listed) (print_regs-reads regs done _)
    | inr not_listed ↦
        simp (check_reg-listed, not_listed)
          (print_regs-reads regs (done ++ (physical reg ∷ [])) _
            ∙ append_assoc done (physical reg ∷ []) (map physical (readable table regs)))
  ]

-- The value of the first entry for a register.
abbrev pub fixed_value : List IgnoreReg → ℕ → Option ℕ
fixed_value [] reg = none
fixed_value ((addr, v) ∷ table) reg = if reg == addr then some v else fixed_value table reg

-- Each line of a register with a fixed value shows it.
abbrev pub ShowsFixed : List IgnoreReg → ℕ × ℕ → Type 0
ShowsFixed table l = (v : ℕ) → fixed_value table l.0 ≡ some v → l.1 ≡ v

check_reg-fixed :
    (table : List IgnoreReg) (reg value v : ℕ)
    → fixed_value table reg ≡ some v
    → check_reg table reg value ≡ (false, v)
unfolding check_reg
check_reg-fixed [] reg value v e = absurd (cc)
check_reg-fixed ((addr, w) ∷ table) reg value v e =
    ground (arith, check_reg-fixed table reg value v)

print_regs-fixed :
    (read : List ℕ → ℕ → ℕ) (table : List IgnoreReg) (regs done : List ℕ) (value : ℕ)
    → All (ShowsFixed table) (print_regs read table regs done value).lines
unfolding print_regs
print_regs-fixed read table [] done value = tt
print_regs-fixed read table (reg ∷ regs) done value =
    (λ v e. rw (check_reg-fixed table reg value v e), print_regs-fixed read table regs _ _)

-- Every register of the table is printed once, in its order, one with a fixed value shows that
-- value, and the accesses are those of the other registers, in order, each at its address in the
-- view of the IPU.
pub print_clock_task_lem :
    (read : List ℕ → ℕ → ℕ) (value : ℕ)
    → (map (λ (l : ℕ × ℕ). l.0) (print_clock_task read value).lines ≡ clkreg)
      × All (ShowsFixed ignorereg) (print_clock_task read value).lines
      × ((print_clock_task read value).reads ≡ map physical (readable ignorereg clkreg))
unfolding print_clock_task
print_clock_task_lem read value = (
  print_regs-lines read ignorereg clkreg [] value,
  print_regs-fixed read ignorereg clkreg [] value,
  print_regs-reads read ignorereg clkreg [] value,
)

-- Strictly ascending.
abbrev pub IsAscending : List ℕ → Type 0
IsAscending [] = Unit
IsAscending (x ∷ xs) = All (λ y. x < y) xs × IsAscending xs

abbrev ascending_from : ℕ → List ℕ → Bool
ascending_from x [] = true
ascending_from x (y ∷ ys) = elim (ltb x y) [ true ↦ ascending_from y ys | false ↦ false ]

ascending_from-IsAscending :
    (x : ℕ) (ys : List ℕ) → ascending_from x ys ≡ true → IsAscending (x ∷ ys)
ascending_from-IsAscending x [] h = (tt, tt)
ascending_from-IsAscending x (y ∷ ys) h =
    let l : x < y = ground arith in
    let r = ascending_from-IsAscending y ys (ground arith) in
    ((l, All-imp ys (λ z m. omega arith) r.0), r)

-- The printed registers ascend strictly, so that none is printed twice.
pub print_clock_task-IsAscending :
    (read : List ℕ → ℕ → ℕ) (value : ℕ)
    → IsAscending (map (λ (l : ℕ × ℕ). l.0) (print_clock_task read value).lines)
print_clock_task-IsAscending read value =
    rw (print_clock_task_lem read value).0
      (unfold clkreg in ascending_from-IsAscending 0x4a005000 (tail clkreg) refl)

readable-not_listed :
    (table : List IgnoreReg) (regs : List ℕ)
    → All (λ reg. is_listed table reg ≡ false) (readable table regs)
readable-not_listed table [] = tt
readable-not_listed table (reg ∷ regs) = elim (Bool-cases (is_listed table reg)) [
  | inl listed ↦ rw listed (readable-not_listed table regs)
  | inr not_listed ↦ rw not_listed (not_listed, readable-not_listed table regs)
]

-- The address is that of no ignored register.
abbrev pub Avoids : ℕ → Type 0
Avoids addr = All (λ (e : IgnoreReg). addr ≢ physical e.0) ignorereg

physical-Avoids :
    (reg : ℕ) → ltb reg 4294967296 ≡ true → is_listed ignorereg reg ≡ false → Avoids (physical reg)
physical-Avoids reg h n = ground arith

map-Avoids :
    (regs : List ℕ)
    → All (λ reg. ltb reg 4294967296 ≡ true) regs
    → All (λ reg. is_listed ignorereg reg ≡ false) regs
    → All Avoids (map physical regs)
map-Avoids [] a b = tt
map-Avoids (reg ∷ regs) a b = (physical-Avoids reg a.0 b.0, map-Avoids regs a.1 b.1)

-- No access goes to the address of an ignored register.
pub print_clock_task-Avoids :
    (read : List ℕ → ℕ → ℕ) (value : ℕ) → All Avoids (print_clock_task read value).reads
print_clock_task-Avoids read value = rw (print_clock_task_lem read value).2 (
    map-Avoids (readable ignorereg clkreg)
      (readable-All (λ reg. ltb reg 4294967296 ≡ true) ignorereg clkreg words)
      (readable-not_listed ignorereg clkreg))
  where
    words : All (λ reg. ltb reg 4294967296 ≡ true) clkreg
    words = all-All (λ reg. ltb reg 4294967296) clkreg (unfold clkreg in refl)

-- ===== src/Rproc/Mapping.antt =====
-- The address map that the table announces: every device region that an offset names.
use testsystem.Prelude.{
  ℕ, ◌+◌, ◌-◌, ◌≤◌, ◌<◌, ◌≡◌, ◌⊎◌, refl, ap, ◌∙◌, Bool, true, ◌&&◌, Option, none, some, List, [],
  ◌∷◌, map, arith, get_elem?, if◌then◌else◌, All, all, all-All, ltb, leb,
}
use testsystem.Rproc.{Entry, entries, offset_indices}
use testsystem.Rproc.Regions.{Region}
use testsystem.ClockTree.{physical, ignorereg, print_clock_task}
use testsystem.ClockTree.Registers.{clkreg}
use testsystem.ClockTree.Printing.{readable, readable-All, print_clock_task_lem}

unfoldable pub devmems : List (Option Entry) → List Region
devmems [] = []
devmems (some (Entry.devmem r) ∷ es) = r ∷ devmems es
devmems (_ ∷ es) = devmems es

-- The device regions that the offsets name.
unfoldable pub announced : ℕ → ℕ → List Region
unfolding devmems entries offset_indices
announced tracebuffer tracebuffer_cpu1 =
    devmems (map (get_elem? (entries tracebuffer tracebuffer_cpu1)) offset_indices)

-- The physical address behind an address of the co-processor.
unfoldable pub translate : List Region → ℕ → Option ℕ
translate [] addr = none
translate (r ∷ rs) addr =
    if leb r.da addr && ltb addr (r.da + r.len)
    then some (r.pa + (addr - r.da))
    else translate rs addr

-- Physical ranges that do not meet.
abbrev pub Apart : Region → Region → Type 0
Apart r s = (r.pa + r.len ≤ s.pa) ⊎ (s.pa + s.len ≤ r.pa)

abbrev pub IsApart : List Region → Type 0
IsApart [] = Unit
IsApart (r ∷ rs) = All (Apart r) rs × IsApart rs

translate-outside :
    (r : Region) (rs : List Region) (addr p : ℕ)
    → All (Apart r) rs
    → translate rs addr ≡ some p
    → r.pa ≤ p
    → p < r.pa + r.len
    → ⊥
unfolding translate
translate-outside r [] addr p a e l h = cc
translate-outside r (s ∷ rs) addr p a e l h = ground (arith, a.0, translate-outside r rs addr p a.1)

translate-injective :
    (rs : List Region) (x y p : ℕ)
    → IsApart rs
    → translate rs x ≡ some p
    → translate rs y ≡ some p
    → x ≡ y
unfolding translate
translate-injective [] x y p a e f = absurd (cc)
translate-injective (r ∷ rs) x y p a e f = ground (
  arith,
  translate-outside r rs x p a.0,
  translate-outside r rs y p a.0,
  translate-injective rs x y p a.1,
)

announced-IsApart : (a b : ℕ) → IsApart (announced a b)
unfolding announced
announced-IsApart a b = omega arith

-- No two addresses of the co-processor reach the same physical address.
pub announced-injective :
    (tracebuffer tracebuffer_cpu1 x y p : ℕ)
    → translate (announced tracebuffer tracebuffer_cpu1) x ≡ some p
    → translate (announced tracebuffer tracebuffer_cpu1) y ≡ some p
    → x ≡ y
announced-injective a b x y p e f =
    translate-injective (announced a b) x y p (announced-IsApart a b) e f

-- The emulation peripherals of `devmem8` are not mapped: no offset names that region.
pub announced-l4emu :
    (tracebuffer tracebuffer_cpu1 addr : ℕ)
    → 0x74000000 ≤ addr
    → addr < 0x75000000
    → translate (announced tracebuffer tracebuffer_cpu1) addr ≡ none
unfolding announced translate
announced-l4emu a b addr l h = ground arith

-- The L4_CFG and L4_WKUP space is reached 0x20000000 above its physical addresses.
announced-l4cfg :
    (a b reg : ℕ)
    → 0x4a000000 ≤ reg
    → reg < 0x4b000000
    → translate (announced a b) (physical reg) ≡ some reg
unfolding announced translate
announced-l4cfg a b reg l h = ground arith

abbrev in_l4cfg : ℕ → Bool
in_l4cfg reg = leb 0x4a000000 reg && ltb reg 0x4b000000

clkreg-in_l4cfg : All (λ reg. in_l4cfg reg ≡ true) clkreg
clkreg-in_l4cfg = all-All in_l4cfg clkreg checked
  where
    checked : all in_l4cfg clkreg ≡ true
    checked = unfold clkreg in refl

translate-physical :
    (a b : ℕ) (regs : List ℕ)
    → All (λ reg. in_l4cfg reg ≡ true) regs
    → map (translate (announced a b)) (map physical regs) ≡ map some regs
translate-physical a b [] h = refl
translate-physical a b (reg ∷ regs) h = rw (
  announced-l4cfg a b reg (ground (arith, h.0)) (ground (arith, h.0)),
  translate-physical a b regs h.1,
)

-- Every access of the clock dump reaches, through the announced map, the register that it is for.
pub dump-reaches_registers :
    (tracebuffer tracebuffer_cpu1 : ℕ) (read : List ℕ → ℕ → ℕ) (value : ℕ)
    → map (translate (announced tracebuffer tracebuffer_cpu1)) (print_clock_task read value).reads
      ≡ map some (readable ignorereg clkreg)
dump-reaches_registers a b read value =
    ap (map (translate (announced a b))) (print_clock_task_lem read value).2
    ∙ translate-physical a b (readable ignorereg clkreg)
        (readable-All (λ reg. in_l4cfg reg ≡ true) ignorereg clkreg clkreg-in_l4cfg)

-- ===== src/Rproc/Imx6.antt =====
-- The resource table of src/imx6/rproctest.c: a carveout and two consoles with two rings each.
use testsystem.Prelude.{
  ℕ, ◌+◌, ◌*◌, ◌<◌, ◌≡◌, refl, List, [], ◌∷◌, map, arith, length, get_elem?, All,
}
use testsystem.Rproc.{Entry, Sizes, offset_of}
use testsystem.Rproc.Regions.{Region}
use testsystem.Rproc.Offsets.{find_entry, IsSized, map-find_entry}

abbrev flash : Region
flash = record { da = 0x18100000; pa = 0x88100000; len = 0x200000; flags = 0; name = "flash" }

-- Both consoles have the id 3, and rings at the same addresses with the same numbers.
abbrev imx6_entries : List Entry
imx6_entries =
    Entry.carveout flash
    ∷ Entry.vdev 3 0 0 0 0 0 2
    ∷ Entry.vring 0x88200000 0x1000 256 1
    ∷ Entry.vring 0x88204000 0x1000 256 2
    ∷ Entry.vdev 3 0 0 0 0 0 2
    ∷ Entry.vring 0x88200000 0x1000 256 1
    ∷ Entry.vring 0x88204000 0x1000 256 2
    ∷ []

abbrev imx6_num : ℕ
imx6_num = 3

-- `flash`, `console` and `console2`.
abbrev imx6_offset_indices : List ℕ
imx6_offset_indices = 0 ∷ 1 ∷ 4 ∷ []

unfoldable pub imx6_offset : Sizes → List ℕ
imx6_offset s = map (offset_of s imx6_num imx6_entries) imx6_offset_indices

-- The table has as many offsets as it says, and whatever the sizes of the structures, if none is
-- empty, a reader finds at them the carveout and the two consoles.
imx6_offset-entries :
    (s : Sizes)
    → IsSized s
    → (length (imx6_offset s) ≡ imx6_num)
      × (map (find_entry s imx6_entries (s.header + imx6_num * 4)) (imx6_offset s)
          ≡ map (get_elem? imx6_entries) imx6_offset_indices)
unfolding imx6_offset
imx6_offset-entries s h =
    let bounds : All (λ i. i < 7) imx6_offset_indices = omega arith in
    (refl, map-find_entry s imx6_num imx6_entries imx6_offset_indices h bounds)

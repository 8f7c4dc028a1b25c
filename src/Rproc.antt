-- ===== src/Rproc.antt =====
-- The resource table of src/am57xx/rproctest.c, which tells the host where the co-processor's memory
-- and peripherals lie. The sizes of the packed structures and the addresses of the trace buffers are
-- parameters: the structures are declared outside the sources, and the linker places the buffers.
pub mod Regions
pub mod Offsets
pub mod Mapping
pub mod Imx6
mod Tests
use Prim.Native.String.{String}
use testsystem.Prelude.{
  ℕ, zero, suc, ◌+◌, ◌*◌, Option, none, some, List, [], ◌∷◌, map, get_elem?, ltb, leb, ◌==◌,
  if◌then◌else◌, length,
}
use testsystem.Rproc.Regions.{
  Region, text_cout, data_cout, trace_cout, ipcdata_cout, devmem1, devmem2, devmem3, devmem4,
  devmem5, devmem6, devmem7, devmem8, devmem9, devmem10, devmem11, devmem12, sz_1m,
}

-- What a structure of the table holds.
pub data Entry : Type 0 where
  vdev : ℕ → ℕ → ℕ → ℕ → ℕ → ℕ → ℕ → Entry
  vring : ℕ → ℕ → ℕ → ℕ → Entry
  carveout devmem : Region → Entry
  trace : ℕ → ℕ → String → Entry

-- The sizes of the structures, and the header `struct resource_table`.
pub record Sizes : Type 0 where
  pub header : ℕ
  pub vdev_size : ℕ
  pub vring_size : ℕ
  pub carveout_size : ℕ
  pub trace_size : ℕ
  pub devmem_size : ℕ

abbrev pub size_of : Sizes → Entry → ℕ
size_of s (vdev id n d g c st v) = s.vdev_size
size_of s (vring da al k n) = s.vring_size
size_of s (carveout r) = s.carveout_size
size_of s (trace da len name) = s.trace_size
size_of s (devmem r) = s.devmem_size

-- The structures behind the offsets, in their order. The arguments are the addresses of
-- `tracebuffer` and `tracebufferCPU1`.
unfoldable pub entries : ℕ → ℕ → List Entry
entries tracebuffer tracebuffer_cpu1 =
    vdev 7 0 1 0 0 0 2
    ∷ vring 0x60000000 4096 256 1
    ∷ vring 0x60004000 4096 256 2
    ∷ carveout text_cout
    ∷ carveout data_cout
    ∷ carveout trace_cout
    ∷ carveout ipcdata_cout
    ∷ trace tracebuffer sz_1m "Trace0"
    ∷ trace tracebuffer_cpu1 sz_1m "Trace1"
    ∷ devmem devmem1
    ∷ devmem devmem2
    ∷ devmem devmem3
    ∷ devmem devmem4
    ∷ devmem devmem5
    ∷ devmem devmem6
    ∷ devmem devmem7
    ∷ devmem devmem8
    ∷ devmem devmem9
    ∷ devmem devmem10
    ∷ devmem devmem11
    ∷ devmem devmem12
    ∷ []

abbrev pub num : ℕ
num = 18

-- `offsetof` of the structure at an index: the header, a word for each of `n` offsets, and the
-- structures before it.
unfoldable pub offset_of : Sizes → ℕ → List Entry → ℕ → ℕ
offset_of s n es zero = s.header + n * 4
offset_of s n [] (suc i) = s.header + n * 4
offset_of s n (e ∷ es) (suc i) = size_of s e + offset_of s n es i

-- The structures that `offset` names, by their index in `entries`: all but the rings, which belong to
-- the first, and `devmem8`.
unfoldable pub offset_indices : List ℕ
offset_indices =
    0 ∷ 3 ∷ 4 ∷ 5 ∷ 6 ∷ 7 ∷ 8 ∷ 9 ∷ 10 ∷ 11 ∷ 12 ∷ 13 ∷ 14 ∷ 15 ∷ 17 ∷ 18 ∷ 19 ∷ 20 ∷ []

unfoldable pub offset : Sizes → List Entry → List ℕ
offset s es = map (offset_of s num es) offset_indices

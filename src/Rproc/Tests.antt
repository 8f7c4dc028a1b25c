-- ===== src/Rproc/Tests.antt =====
-- The theorems on the resource table at concrete inputs.
use testsystem.Prelude.{◌≡◌, some, map, arith}
use testsystem.Rproc.{Sizes}
use testsystem.Rproc.Offsets.{IsSized}
use testsystem.Rproc.Mapping.{announced, translate, dump-reaches_registers}
use testsystem.ClockTree.{ignorereg, print_clock_task}
use testsystem.ClockTree.Registers.{clkreg}
use testsystem.ClockTree.Printing.{readable}

-- The sizes of the packed structures on the co-processor.
abbrev packed : Sizes
packed = record {
  header = 16;
  vdev_size = 28;
  vring_size = 20;
  carveout_size = 56;
  trace_size = 48;
  devmem_size = 56;
}

packed-IsSized : IsSized packed
packed-IsSized = omega arith

dump-reaches_registers_example :
    map (translate (announced 0xc0000000 0xc0100000)) (print_clock_task (λ done addr. 0) 0).reads
    ≡ map some (readable ignorereg clkreg)
dump-reaches_registers_example = dump-reaches_registers 0xc0000000 0xc0100000 (λ done addr. 0) 0

-- ===== src/Rproc/Regions.antt =====
-- The memory regions of the resource table of src/am57xx/rproctest.c: addresses as the co-processor
-- sees them (`da`), physical addresses (`pa`) and lengths.
use Prim.Native.String.{String}
use testsystem.Prelude.{ℕ, ◌*◌}

abbrev pub sz_1m : ℕ
sz_1m = 1 * 1024 * 1024

-- `struct fw_rsc_carveout` and `struct fw_rsc_devmem`, less the type.
pub record Region : Type 0 where
  pub da : ℕ
  pub pa : ℕ
  pub len : ℕ
  pub flags : ℕ
  pub name : String

abbrev pub text_cout : Region
text_cout = record {
  da = 0x00000000;
  pa = 0x00000000;
  len = 6 * sz_1m;
  flags = 0;
  name = "IPU_MEM_TEXT";
}

abbrev pub data_cout : Region
data_cout = record {
  da = 0x80000000;
  pa = 0x00000000;
  len = 14 * sz_1m;
  flags = 0;
  name = "IPU_MEM_DATA";
}

abbrev pub ipcdata_cout : Region
ipcdata_cout = record {
  da = 0x9f000000;
  pa = 0x00000000;
  len = 1 * sz_1m;
  flags = 0;
  name = "IPU_MEM_IPC_DATA";
}

abbrev pub trace_cout : Region
trace_cout = record {
  da = 0xc0000000;
  pa = 0x00000000;
  len = 2 * sz_1m;
  flags = 0;
  name = "IPU_MEM_TRACE";
}

abbrev pub devmem1 : Region
devmem1 = record {
  da = 0x60000000;
  pa = 0x95800000;
  len = 1 * sz_1m;
  flags = 0;
  name = "IPU_TILER_MODE_0_1";
}

abbrev pub devmem2 : Region
devmem2 = record {
  da = 0xa0000000;
  pa = 0x60000000;
  len = 256 * sz_1m;
  flags = 0;
  name = "IPU_TILER_MODE_0_1";
}

abbrev pub devmem3 : Region
devmem3 = record {
  da = 0xb0000000;
  pa = 0x70000000;
  len = 128 * sz_1m;
  flags = 0;
  name = "IPU_TILER_MODE_2";
}

abbrev pub devmem4 : Region
devmem4 = record {
  da = 0xb8000000;
  pa = 0x78000000;
  len = 128 * sz_1m;
  flags = 0;
  name = "IPU_TILER_MODE_3";
}

abbrev pub devmem5 : Region
devmem5 = record {
  da = 0x68000000;
  pa = 0x48000000;
  len = 2 * sz_1m;
  flags = 0;
  name = "IPU_PERIPHERAL_L4PER1";
}

abbrev pub devmem6 : Region
devmem6 = record {
  da = 0x68400000;
  pa = 0x48400000;
  len = 4 * sz_1m;
  flags = 0;
  name = "IPU_PERIPHERAL_L4PER2";
}

abbrev pub devmem7 : Region
devmem7 = record {
  da = 0x68800000;
  pa = 0x48800000;
  len = 8 * sz_1m;
  flags = 0;
  name = "IPU_PERIPHERAL_L4PER3";
}

abbrev pub devmem8 : Region
devmem8 = record {
  da = 0x74000000;
  pa = 0x54000000;
  len = 16 * sz_1m;
  flags = 0;
  name = "IPU_PERIPHERAL_L4EMU";
}

abbrev pub devmem9 : Region
devmem9 = record {
  da = 0x7a000000;
  pa = 0x5a000000;
  len = 16 * sz_1m;
  flags = 0;
  name = "IPU_IVAHD_CONFIG";
}

abbrev pub devmem10 : Region
devmem10 = record {
  da = 0x7b000000;
  pa = 0x5b000000;
  len = 16 * sz_1m;
  flags = 0;
  name = "IPU_IVAHD_SL2";
}

abbrev pub devmem11 : Region
devmem11 = record {
  da = 0x6e000000;
  pa = 0x4e000000;
  len = 1 * sz_1m;
  flags = 0;
  name = "IPU_PERIPHERAL_DMM";
}

abbrev pub devmem12 : Region
devmem12 = record {
  da = 0x6a000000;
  pa = 0x4a000000;
  len = 16 * sz_1m;
  flags = 0;
  name = "IPU_PERIPHERAL_L4CFG";
}

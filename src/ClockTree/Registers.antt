-- ===== src/ClockTree/Registers.antt =====
-- The register table `clkreg` of src/am57xx/printClockTree.c, page by page: the clock modules of the
-- core (0x4a005, 0x4a008, 0x4a009) and of the wake-up domain (0x4ae06, 0x4ae07).
use testsystem.Prelude.{ℕ, List, [], ◌∷◌, ◌++◌}

unfoldable pub clkreg_4a005 : List ℕ
clkreg_4a005 =
    0x4a005000 ∷ 0x4a005040 ∷ 0x4a0050ec ∷ 0x4a0050f0 ∷ 0x4a0050f4 ∷ 0x4a0050f8 ∷ 0x4a0050fc
    ∷ 0x4a005100 ∷ 0x4a005108 ∷ 0x4a005110 ∷ 0x4a005120 ∷ 0x4a005124 ∷ 0x4a005128 ∷ 0x4a00512c
    ∷ 0x4a005130 ∷ 0x4a00513c ∷ 0x4a005140 ∷ 0x4a005144 ∷ 0x4a005154 ∷ 0x4a005158 ∷ 0x4a00515c
    ∷ 0x4a005160 ∷ 0x4a005164 ∷ 0x4a005168 ∷ 0x4a00516c ∷ 0x4a005170 ∷ 0x4a00519c ∷ 0x4a0051a0
    ∷ 0x4a0051a4 ∷ 0x4a0051a8 ∷ 0x4a0051ac ∷ 0x4a0051b0 ∷ 0x4a0051dc ∷ 0x4a0051e0 ∷ 0x4a0051e4
    ∷ 0x4a0051e8 ∷ 0x4a0051ec ∷ 0x4a0051f0 ∷ 0x4a0051f4 ∷ 0x4a005210 ∷ 0x4a005214 ∷ 0x4a005218
    ∷ 0x4a00521c ∷ 0x4a005220 ∷ 0x4a005228 ∷ 0x4a005234 ∷ 0x4a005238 ∷ 0x4a00523c ∷ 0x4a005240
    ∷ 0x4a005244 ∷ 0x4a005248 ∷ 0x4a005254 ∷ 0x4a005260 ∷ 0x4a005264 ∷ 0x4a005270 ∷ 0x4a005284
    ∷ 0x4a005288 ∷ 0x4a00528c ∷ 0x4a005290 ∷ 0x4a005294 ∷ 0x4a0052a4 ∷ 0x4a0052a8 ∷ 0x4a0052ac
    ∷ 0x4a0052b0 ∷ 0x4a0052b4 ∷ 0x4a0052b8 ∷ 0x4a0052bc ∷ 0x4a0052c0 ∷ 0x4a0052c4 ∷ 0x4a0052c8
    ∷ 0x4a0052d8 ∷ 0x4a0052dc ∷ 0x4a0052e0 ∷ 0x4a0052e4 ∷ 0x4a0052e8 ∷ 0x4a005300 ∷ 0x4a005304
    ∷ 0x4a005308 ∷ 0x4a005320 ∷ 0x4a005328 ∷ 0x4a005400 ∷ 0x4a005404 ∷ 0x4a005408 ∷ 0x4a005420
    ∷ 0x4a005500 ∷ 0x4a005504 ∷ 0x4a005508 ∷ 0x4a005520 ∷ 0x4a005540 ∷ 0x4a005550 ∷ 0x4a005558
    ∷ 0x4a005560 ∷ 0x4a005568 ∷ 0x4a005570 ∷ 0x4a005578 ∷ 0x4a005580 ∷ 0x4a005600 ∷ 0x4a005604
    ∷ 0x4a005608 ∷ 0x4a005620 ∷ 0x4a005640 ∷ 0x4a005644 ∷ 0x4a005660 ∷ 0x4a005680 ∷ 0x4a005684
    ∷ 0x4a0056a0 ∷ 0x4a0056c0 ∷ 0x4a0056c4 ∷ 0x4a0056e0 ∷ 0x4a005700 ∷ 0x4a005704 ∷ 0x4a005720
    ∷ 0x4a005740 ∷ 0x4a005744 ∷ 0x4a005760 ∷ 0x4a005764 ∷ 0x4a005768 ∷ 0x4a005e00 ∷ 0x4a005e04
    ∷ 0x4a005e10 ∷ 0x4a005e14 ∷ 0x4a005e18 ∷ 0x4a005e20 ∷ 0x4a005e24 ∷ 0x4a005e28 ∷ 0x4a005e2c
    ∷ 0x4a005e38 ∷ 0x4a005e3c ∷ 0x4a005e40 ∷ 0x4a005e44 ∷ 0x4a005e48 ∷ 0x4a005e4c ∷ 0x4a005e50
    ∷ 0x4a005f00 ∷ 0x4a005f10 ∷ 0x4a005f14 ∷ 0x4a005f24 ∷ 0x4a005f28 ∷ 0x4a005f2c ∷ 0x4a005f30 ∷ []

unfoldable pub clkreg_4a008 : List ℕ
clkreg_4a008 =
    0x4a008000 ∷ 0x4a008040 ∷ 0x4a0080f0 ∷ 0x4a008104 ∷ 0x4a008140 ∷ 0x4a008144 ∷ 0x4a008148
    ∷ 0x4a00814c ∷ 0x4a008150 ∷ 0x4a008158 ∷ 0x4a00815c ∷ 0x4a008160 ∷ 0x4a008164 ∷ 0x4a008180
    ∷ 0x4a008184 ∷ 0x4a008188 ∷ 0x4a00818c ∷ 0x4a008190 ∷ 0x4a0081b4 ∷ 0x4a008200 ∷ 0x4a008204
    ∷ 0x4a008208 ∷ 0x4a00820c ∷ 0x4a008210 ∷ 0x4a00821c ∷ 0x4a008220 ∷ 0x4a008224 ∷ 0x4a008228
    ∷ 0x4a008600 ∷ 0x4a008640 ∷ 0x4a008688 ∷ 0x4a008698 ∷ 0x4a0086a0 ∷ 0x4a0086b0 ∷ 0x4a0086c0
    ∷ 0x4a0086d0 ∷ 0x4a008700 ∷ 0x4a008708 ∷ 0x4a008720 ∷ 0x4a008728 ∷ 0x4a008730 ∷ 0x4a008748
    ∷ 0x4a008750 ∷ 0x4a008758 ∷ 0x4a008760 ∷ 0x4a008770 ∷ 0x4a008778 ∷ 0x4a008780 ∷ 0x4a008788
    ∷ 0x4a008790 ∷ 0x4a008900 ∷ 0x4a008904 ∷ 0x4a008908 ∷ 0x4a008920 ∷ 0x4a008a00 ∷ 0x4a008a04
    ∷ 0x4a008a08 ∷ 0x4a008a20 ∷ 0x4a008b00 ∷ 0x4a008b20 ∷ 0x4a008b28 ∷ 0x4a008b30 ∷ 0x4a008b38
    ∷ 0x4a008b40 ∷ 0x4a008c00 ∷ 0x4a008c20 ∷ 0x4a008d00 ∷ 0x4a008d08 ∷ 0x4a008d20 ∷ 0x4a008d28
    ∷ 0x4a008d30 ∷ 0x4a008d38 ∷ 0x4a008d40 ∷ 0x4a008d48 ∷ 0x4a008d50 ∷ 0x4a008d58 ∷ 0x4a008d60
    ∷ 0x4a008d68 ∷ 0x4a008d70 ∷ 0x4a008d78 ∷ 0x4a008d80 ∷ 0x4a008d88 ∷ 0x4a008d90 ∷ 0x4a008d98
    ∷ 0x4a008da0 ∷ 0x4a008e00 ∷ 0x4a008e20 ∷ 0x4a008e28 ∷ 0x4a008e40 ∷ 0x4a008e48 ∷ 0x4a008e50
    ∷ 0x4a008f00 ∷ 0x4a008f04 ∷ 0x4a008f08 ∷ 0x4a008f20 ∷ 0x4a008f28 ∷ []

unfoldable pub clkreg_4a009 : List ℕ
clkreg_4a009 =
    0x4a009000 ∷ 0x4a009004 ∷ 0x4a009020 ∷ 0x4a009028 ∷ 0x4a009030 ∷ 0x4a009100 ∷ 0x4a009104
    ∷ 0x4a009108 ∷ 0x4a009120 ∷ 0x4a009130 ∷ 0x4a009200 ∷ 0x4a009204 ∷ 0x4a009208 ∷ 0x4a009220
    ∷ 0x4a009300 ∷ 0x4a009304 ∷ 0x4a009308 ∷ 0x4a009328 ∷ 0x4a009330 ∷ 0x4a009340 ∷ 0x4a009348
    ∷ 0x4a009350 ∷ 0x4a009358 ∷ 0x4a009378 ∷ 0x4a009388 ∷ 0x4a0093a0 ∷ 0x4a0093a4 ∷ 0x4a0093b0
    ∷ 0x4a0093b8 ∷ 0x4a0093c0 ∷ 0x4a0093c4 ∷ 0x4a0093c8 ∷ 0x4a0093d0 ∷ 0x4a0093e0 ∷ 0x4a0093e8
    ∷ 0x4a0093f0 ∷ 0x4a009600 ∷ 0x4a009620 ∷ 0x4a009700 ∷ 0x4a009708 ∷ 0x4a00970c ∷ 0x4a009714
    ∷ 0x4a009718 ∷ 0x4a009720 ∷ 0x4a009728 ∷ 0x4a009730 ∷ 0x4a009738 ∷ 0x4a009740 ∷ 0x4a009748
    ∷ 0x4a009750 ∷ 0x4a009758 ∷ 0x4a009760 ∷ 0x4a009768 ∷ 0x4a009770 ∷ 0x4a009778 ∷ 0x4a009780
    ∷ 0x4a009788 ∷ 0x4a009790 ∷ 0x4a009798 ∷ 0x4a0097a0 ∷ 0x4a0097a8 ∷ 0x4a0097b0 ∷ 0x4a0097b8
    ∷ 0x4a0097c0 ∷ 0x4a0097c4 ∷ 0x4a0097c8 ∷ 0x4a0097d0 ∷ 0x4a0097d8 ∷ 0x4a0097f0 ∷ 0x4a0097f8
    ∷ 0x4a009800 ∷ 0x4a009808 ∷ 0x4a009810 ∷ 0x4a009818 ∷ 0x4a009820 ∷ 0x4a009828 ∷ 0x4a009830
    ∷ 0x4a009838 ∷ 0x4a009840 ∷ 0x4a009848 ∷ 0x4a009850 ∷ 0x4a009858 ∷ 0x4a009860 ∷ 0x4a009868
    ∷ 0x4a009870 ∷ 0x4a009878 ∷ 0x4a009880 ∷ 0x4a009884 ∷ 0x4a009888 ∷ 0x4a009890 ∷ 0x4a009898
    ∷ 0x4a0098a0 ∷ 0x4a0098a8 ∷ 0x4a0098b0 ∷ 0x4a0098b8 ∷ 0x4a0098c0 ∷ 0x4a0098c8 ∷ 0x4a0098d0
    ∷ 0x4a0098d8 ∷ 0x4a0098e0 ∷ 0x4a0098e8 ∷ 0x4a0098f0 ∷ 0x4a0098f8 ∷ 0x4a0098fc ∷ 0x4a009900
    ∷ 0x4a009904 ∷ 0x4a009908 ∷ 0x4a00990c ∷ 0x4a009910 ∷ 0x4a009914 ∷ 0x4a009e18 ∷ 0x4a009e20
    ∷ 0x4a009e28 ∷ 0x4a009e2c ∷ 0x4a009e30 ∷ 0x4a009e34 ∷ 0x4a009e38 ∷ 0x4a009e3c ∷ 0x4a009e48
    ∷ 0x4a009e58 ∷ 0x4a009e5c ∷ 0x4a009e6c ∷ []

unfoldable pub clkreg_4ae06 : List ℕ
clkreg_4ae06 =
    0x4ae06000 ∷ 0x4ae06010 ∷ 0x4ae06014 ∷ 0x4ae06018 ∷ 0x4ae0601c ∷ 0x4ae06020 ∷ 0x4ae06028
    ∷ 0x4ae06030 ∷ 0x4ae06038 ∷ 0x4ae06040 ∷ 0x4ae06044 ∷ 0x4ae06048 ∷ 0x4ae0604c ∷ 0x4ae06050
    ∷ 0x4ae06054 ∷ 0x4ae06058 ∷ 0x4ae0605c ∷ 0x4ae06060 ∷ 0x4ae06064 ∷ 0x4ae06068 ∷ 0x4ae0606c
    ∷ 0x4ae06070 ∷ 0x4ae060e4 ∷ 0x4ae060e8 ∷ 0x4ae060ec ∷ 0x4ae060f0 ∷ 0x4ae060f4 ∷ 0x4ae06100
    ∷ 0x4ae06108 ∷ 0x4ae0610c ∷ 0x4ae06110 ∷ 0x4ae06114 ∷ 0x4ae06118 ∷ 0x4ae0611c ∷ 0x4ae06120
    ∷ 0x4ae06124 ∷ 0x4ae06128 ∷ 0x4ae0612c ∷ 0x4ae06130 ∷ 0x4ae06134 ∷ 0x4ae06138 ∷ 0x4ae06144
    ∷ 0x4ae06148 ∷ 0x4ae0614c ∷ 0x4ae06150 ∷ 0x4ae06154 ∷ 0x4ae06158 ∷ 0x4ae0615c ∷ 0x4ae06160
    ∷ 0x4ae06164 ∷ 0x4ae06168 ∷ 0x4ae0616c ∷ 0x4ae06170 ∷ 0x4ae06174 ∷ 0x4ae06178 ∷ 0x4ae06180
    ∷ 0x4ae06184 ∷ 0x4ae06188 ∷ 0x4ae0618c ∷ 0x4ae06190 ∷ 0x4ae06194 ∷ 0x4ae06198 ∷ 0x4ae0619c
    ∷ 0x4ae061a0 ∷ 0x4ae061a4 ∷ 0x4ae061a8 ∷ 0x4ae061ac ∷ 0x4ae061b0 ∷ 0x4ae061b4 ∷ 0x4ae061b8
    ∷ 0x4ae061c0 ∷ 0x4ae061c4 ∷ 0x4ae061c8 ∷ 0x4ae061cc ∷ 0x4ae061d0 ∷ 0x4ae061d4 ∷ 0x4ae061d8
    ∷ 0x4ae061e0 ∷ 0x4ae06300 ∷ 0x4ae06304 ∷ 0x4ae06324 ∷ 0x4ae06400 ∷ 0x4ae06404 ∷ 0x4ae06410
    ∷ 0x4ae06414 ∷ 0x4ae06424 ∷ 0x4ae06500 ∷ 0x4ae06504 ∷ 0x4ae06510 ∷ 0x4ae06514 ∷ 0x4ae06524
    ∷ 0x4ae06550 ∷ 0x4ae06558 ∷ 0x4ae06560 ∷ 0x4ae06568 ∷ 0x4ae06570 ∷ 0x4ae06578 ∷ 0x4ae06580
    ∷ 0x4ae06700 ∷ 0x4ae06704 ∷ 0x4ae06750 ∷ 0x4ae06758 ∷ 0x4ae06760 ∷ 0x4ae06770 ∷ 0x4ae06778
    ∷ 0x4ae06780 ∷ 0x4ae06910 ∷ 0x4ae06914 ∷ 0x4ae06924 ∷ 0x4ae06f00 ∷ 0x4ae06f04 ∷ 0x4ae06f10
    ∷ 0x4ae06f14 ∷ 0x4ae06f24 ∷ 0x4ae06f2c ∷ []

unfoldable pub clkreg_4ae07_low : List ℕ
clkreg_4ae07_low =
    0x4ae07000 ∷ 0x4ae07004 ∷ 0x4ae07020 ∷ 0x4ae07024 ∷ 0x4ae07028 ∷ 0x4ae0702c ∷ 0x4ae07030
    ∷ 0x4ae07034 ∷ 0x4ae07100 ∷ 0x4ae07104 ∷ 0x4ae07120 ∷ 0x4ae07124 ∷ 0x4ae07128 ∷ 0x4ae07134
    ∷ 0x4ae07200 ∷ 0x4ae07204 ∷ 0x4ae07224 ∷ 0x4ae07300 ∷ 0x4ae07304 ∷ 0x4ae07310 ∷ 0x4ae07314
    ∷ 0x4ae07328 ∷ 0x4ae07330 ∷ 0x4ae07340 ∷ 0x4ae07344 ∷ 0x4ae07348 ∷ 0x4ae0734c ∷ 0x4ae07350
    ∷ 0x4ae07354 ∷ 0x4ae07388 ∷ 0x4ae0738c ∷ 0x4ae073b0 ∷ 0x4ae073b4 ∷ 0x4ae073b8 ∷ 0x4ae073bc
    ∷ 0x4ae073f0 ∷ 0x4ae073f4 ∷ 0x4ae07428 ∷ 0x4ae07430 ∷ 0x4ae07438 ∷ 0x4ae07440 ∷ 0x4ae07448
    ∷ 0x4ae07450 ∷ 0x4ae07460 ∷ 0x4ae07468 ∷ 0x4ae07470 ∷ 0x4ae07478 ∷ 0x4ae07480 ∷ 0x4ae074a0
    ∷ 0x4ae074a8 ∷ 0x4ae074b0 ∷ 0x4ae074b8 ∷ 0x4ae074c8 ∷ 0x4ae074d0 ∷ 0x4ae074d8 ∷ 0x4ae074f0
    ∷ 0x4ae074f8 ∷ 0x4ae07500 ∷ 0x4ae07508 ∷ 0x4ae07510 ∷ 0x4ae07518 ∷ 0x4ae07520 ∷ 0x4ae07528
    ∷ 0x4ae07530 ∷ 0x4ae07538 ∷ 0x4ae07540 ∷ 0x4ae07548 ∷ 0x4ae07550 ∷ 0x4ae07558 ∷ 0x4ae07560
    ∷ 0x4ae07568 ∷ 0x4ae07570 ∷ 0x4ae07578 ∷ 0x4ae07580 ∷ 0x4ae07588 ∷ 0x4ae07590 ∷ 0x4ae07598
    ∷ 0x4ae075d0 ∷ 0x4ae075e0 ∷ 0x4ae075e8 ∷ 0x4ae075f0 ∷ 0x4ae07600 ∷ 0x4ae07604 ∷ 0x4ae07624
    ∷ 0x4ae07724 ∷ 0x4ae07730 ∷ 0x4ae07734 ∷ 0x4ae07738 ∷ 0x4ae0773c ∷ 0x4ae07740 ∷ 0x4ae07744
    ∷ 0x4ae07748 ∷ 0x4ae0774c ∷ 0x4ae07754 ∷ 0x4ae07778 ∷ 0x4ae0777c ∷ 0x4ae07780 ∷ 0x4ae07784
    ∷ 0x4ae07788 ∷ 0x4ae0778c ∷ 0x4ae07800 ∷ 0x4ae07820 ∷ 0x4ae07830 ∷ 0x4ae07838 ∷ 0x4ae07840
    ∷ 0x4ae07848 ∷ 0x4ae07850 ∷ 0x4ae07878 ∷ 0x4ae07880 ∷ 0x4ae07888 ∷ []

unfoldable pub clkreg_4ae07_high : List ℕ
clkreg_4ae07_high =
    0x4ae07a00 ∷ 0x4ae07a04 ∷ 0x4ae07a08 ∷ 0x4ae07a0c ∷ 0x4ae07b00 ∷ 0x4ae07b04 ∷ 0x4ae07b10
    ∷ 0x4ae07b14 ∷ 0x4ae07b24 ∷ 0x4ae07b40 ∷ 0x4ae07b44 ∷ 0x4ae07b50 ∷ 0x4ae07b54 ∷ 0x4ae07b60
    ∷ 0x4ae07b64 ∷ 0x4ae07b80 ∷ 0x4ae07b84 ∷ 0x4ae07b90 ∷ 0x4ae07b94 ∷ 0x4ae07ba0 ∷ 0x4ae07ba4
    ∷ 0x4ae07bc0 ∷ 0x4ae07bc4 ∷ 0x4ae07bd0 ∷ 0x4ae07bd4 ∷ 0x4ae07be0 ∷ 0x4ae07be4 ∷ 0x4ae07c00
    ∷ 0x4ae07c04 ∷ 0x4ae07c10 ∷ 0x4ae07c14 ∷ 0x4ae07c20 ∷ 0x4ae07c24 ∷ 0x4ae07c60 ∷ 0x4ae07c64
    ∷ 0x4ae07c80 ∷ 0x4ae07c84 ∷ 0x4ae07ca0 ∷ 0x4ae07ca4 ∷ 0x4ae07d00 ∷ 0x4ae07d04 ∷ 0x4ae07d08
    ∷ 0x4ae07d18 ∷ 0x4ae07d1c ∷ 0x4ae07d20 ∷ 0x4ae07dbc ∷ 0x4ae07dc4 ∷ 0x4ae07dc8 ∷ 0x4ae07dcc
    ∷ 0x4ae07dd0 ∷ 0x4ae07dd4 ∷ 0x4ae07dd8 ∷ 0x4ae07ddc ∷ 0x4ae07de0 ∷ 0x4ae07de4 ∷ 0x4ae07de8
    ∷ 0x4ae07dec ∷ 0x4ae07df0 ∷ 0x4ae07df4 ∷ 0x4ae07df8 ∷ 0x4ae07dfc ∷ 0x4ae07e18 ∷ 0x4ae07e1c
    ∷ 0x4ae07e20 ∷ 0x4ae07e24 ∷ 0x4ae07e28 ∷ 0x4ae07e2c ∷ 0x4ae07e30 ∷ 0x4ae07e34 ∷ 0x4ae07f00
    ∷ 0x4ae07f10 ∷ 0x4ae07f14 ∷ 0x4ae07f24 ∷ 0x4ae07f28 ∷ 0x4ae07f2c ∷ 0x4ae07f30 ∷ []

unfoldable pub clkreg : List ℕ
unfolding clkreg_4a005 clkreg_4a008 clkreg_4a009 clkreg_4ae06 clkreg_4ae07_low clkreg_4ae07_high
clkreg =
    clkreg_4a005
    ++ (clkreg_4a008
        ++ (clkreg_4a009 ++ (clkreg_4ae06 ++ (clkreg_4ae07_low ++ (clkreg_4ae07_high)))))

-- ===== src/Boardtest/Tables.antt =====
-- The tables of pins. On the STM32 a pin is a port and a number, on the AM57xx the name of a pad; the
-- numbers behind them come from `iomux.h`. The AM57xx is built without CONFIG_TIMER_TEST.
use Prim.Native.String.{String}
use testsystem.Prelude.{ℕ, List, [], ◌∷◌}

-- The port, A to E as 0 to 4, and the number of the pin.
abbrev pub Pin : Type 0
Pin = ℕ × ℕ

-- `struct pinDesc`.
pub record PinDesc : Type 0 where
  pub name : String
  pub pin_id : Pin

abbrev pin : String → ℕ → ℕ → PinDesc
pin name port number = record { name = name; pin_id = (port, number) }

abbrev pub stm32_pins : List PinDesc
stm32_pins =
    pin "SERVO_OUT" 1 8
    ∷ pin "SERVO_IN" 1 4
    ∷ pin "DRIVE OUT" 4 5
    ∷ pin "DRIVE IN" 4 6
    ∷ pin "RSHR" 1 5
    ∷ pin "RSHL" 4 13
    ∷ pin "RSVR" 0 3
    ∷ pin "RSVL" 0 1
    ∷ pin "USS 1" 0 8
    ∷ pin "USS 2" 2 9
    ∷ pin "SPI SCK" 1 13
    ∷ pin "SPI MOSI" 1 15
    ∷ pin "SPI INT" 3 9
    ∷ pin "SPI NSS" 1 12
    ∷ pin "SPI MISO" 1 14
    ∷ pin "UART TX" 2 6
    ∷ pin "UART RX" 2 7
    ∷ pin "LAMPS 1" 2 8
    ∷ pin "LAMPS 2" 3 0
    ∷ pin "LAMPS 3" 2 11
    ∷ pin "LAMPS RC" 2 13
    ∷ pin "LAMPS STATUS 1" 4 10
    ∷ pin "LAMPS STATUS 2" 4 12
    ∷ pin "LAMPS STATUS 3" 4 14
    ∷ []

abbrev pub stm32_buttons : List PinDesc
stm32_buttons =
    pin "DISTS" 0 15 ∷ pin "BTN STAUS 1" 3 1 ∷ pin "BTN STAUS 2" 3 3 ∷ pin "BTN STAUS 3" 3 7 ∷ []

abbrev pub am57xx_pins : List String
am57xx_pins =
    "PAD_XREF_CLK3" ∷ "PAD_GPMC_A13" ∷ "PAD_MCASP1_AXR13" ∷ "PAD_MCASP1_AXR14" ∷ "PAD_VIN1A_D19"
    ∷ "PAD_VIN1A_D22" ∷ "PAD_VIN1A_D12" ∷ "PAD_VIN1A_D14" ∷ "PAD_VIN1A_D4" ∷ "PAD_VIN1A_D10"
    ∷ "PAD_VIN1A_D5" ∷ "PAD_VIN1A_D16" ∷ "PAD_VIN1A_D20" ∷ "PAD_VIN1A_D7" ∷ "PAD_VIN1A_D8"
    ∷ "PAD_VIN1A_D11" ∷ "PAD_VIN2A_D6" ∷ "PAD_VIN2A_D9" ∷ "PAD_VIN2A_DE0" ∷ "PAD_VIN2A_CLK0"
    ∷ "PAD_GPMC_A17" ∷ "PAD_VIN1A_D2" ∷ "PAD_GPMC_OEN_REN" ∷ "PAD_XREF_CLK2" ∷ "PAD_VIN1B_CLK1"
    ∷ "PAD_VIN1A_D3" ∷ "PAD_MMC3_DAT7" ∷ "PAD_UART3_RXD" ∷ "PAD_MMC3_CMD" ∷ "PAD_GPMC_A16"
    ∷ "PAD_MCASP1_AXR3" ∷ []

abbrev pub am57xx_buttons : List String
am57xx_buttons =
    "PAD_VIN2A_D9" ∷ "PAD_VIN2A_DE0" ∷ "PAD_VIN2A_CLK0" ∷ "PAD_XREF_CLK1" ∷ "PAD_GPMC_A12"
    ∷ "PAD_GPIO6_15" ∷ "PAD_GPMC_A15" ∷ "PAD_GPMC_CS2" ∷ "PAD_MCASP1_AXR6" ∷ "PAD_UART3_RXD"
    ∷ "PAD_VIN1A_D6" ∷ "PAD_GPMC_A16" ∷ "PAD_MCASP1_AXR3" ∷ []

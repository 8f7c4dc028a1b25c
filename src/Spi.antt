-- ===== src/Spi.antt =====
-- The reset command for an SD card of src/s32k/spitest.c: `crc7` and `sendCommand`.
-- `CMD` is a macro of the HAL and a parameter, and so is `transfer`, here the call of
-- `spiSlave_transfer`: the status and the words received, from the words sent. `BIT(n)` is 2 ^ n. An
-- `int32_t` argument is its bit pattern. Spi/Bytes has the transfer of single bytes.
pub mod Crc
pub mod Frame
pub mod Response
pub mod Bytes
pub mod Start
mod Tests
use Prim.Native.Nat.{bit_or, bit_xor}
use testsystem.Prelude.{
  ℕ, zero, suc, ◌+◌, ◌*◌, ◌/◌, ◌%◌, ◌^◌, Option, none, some, List, [], ◌∷◌, ◌++◌, ◌==◌,
  if◌then◌else◌, replicate, take, drop,
}
use testsystem.Prelude.Int.{ℤ, is_negative}

abbrev pub u8_mod : ℕ
u8_mod = 256

abbrev pub u16_mod : ℕ
u16_mod = 65536

-- The table-free step for one byte `e`, already mixed into the register.
unfoldable pub crc7_step : ℕ → ℕ
crc7_step e =
    let f = bit_xor (bit_xor e (e / 2 ^ 4)) (e / 2 ^ 7) % u8_mod in
    bit_xor (f * 2) (f * 2 ^ 4) % u8_mod

-- The loop of `crc7`; `data` are the words from the loop index on.
unfoldable pub crc7_loop : ℕ → List ℕ → ℕ
unfolding crc7_step
crc7_loop crc [] = crc
crc7_loop crc (word ∷ words) = crc7_loop (crc7_step (bit_xor crc (word % u8_mod) % u8_mod)) words

unfoldable pub crc7 : List ℕ → ℕ
unfolding crc7_loop
crc7 words = crc7_loop 0 words / 2

abbrev pub sd_command_offset : ℕ
sd_command_offset = 1

abbrev pub sd_command_len : ℕ
sd_command_len = sd_command_offset + 1 + 4 + 1 + 8 + 1 + 8

-- `memset` with 0xFF, over words of 16 bits.
abbrev pub idle_word : ℕ
idle_word = 0xffff

module _ (cmd_macro : ℕ → ℕ) where
  -- The five words that are protected.
  abbrev pub protected_words : ℕ → List ℕ
  protected_words arg =
      (bit_or 64 (cmd_macro 0) % u16_mod)
      ∷ (arg / 2 ^ 24 % 256)
      ∷ (arg / 2 ^ 16 % 256)
      ∷ (arg / 2 ^ 8 % 256)
      ∷ (arg % 256)
      ∷ []

  -- The words that `sendCommand` sends.
  unfoldable pub command_words : ℕ → List ℕ
  unfolding crc7
  command_words arg =
      idle_word
      ∷ (protected_words arg
          ++ (bit_or (crc7 (protected_words arg) * 2) 1 ∷ replicate (8 + 1 + 8) idle_word))

-- The loop over the received words from index `i` on: the lines that are printed.
unfoldable pub responses : ℕ → List ℕ → List (ℕ × ℕ)
responses i [] = []
responses i (word ∷ words) =
    let rest = responses (suc i) words in if word == 0xff then rest else (i, word) ∷ rest

-- The second assertion, and the result.
abbrev pub found : List (ℕ × ℕ) → Option (List (ℕ × ℕ))
found [] = none
found (line ∷ lines) = some (line ∷ lines)

-- `sendCommand`: the printed lines. `none` is a failed assertion. The parameter `cmd` is not used.
unfoldable pub send_command : (ℕ → ℕ) → (List ℕ → ℤ × List ℕ) → ℕ → ℕ → Option (List (ℕ × ℕ))
unfolding command_words responses
send_command cmd_macro transfer cmd arg =
    let (ret, received) = transfer (command_words cmd_macro arg) in
    let recv = take sd_command_len received in
    let lines = responses (sd_command_offset + 5) (drop (sd_command_offset + 5) recv) in
    if is_negative ret then none else found lines

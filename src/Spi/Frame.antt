-- ===== src/Spi/Frame.antt =====
-- The command as an SD card reads it, and what counts as its response.
use Prim.Native.Nat.{bit_or, bit_xor}
use testsystem.Prelude.{
  ℕ, ◌+◌, ◌*◌, ◌/◌, ◌%◌, ◌^◌, ◌<◌, ◌≡◌, refl, ap, ◌∙◌, true, false, ◌&&◌, Option, none, some, List,
  [], ◌∷◌, arith, ◌==◌, if◌then◌else◌, ==_iff, all_below, all_below-eq_true, replicate,
}
use testsystem.Spi.{crc7_step, crc7_loop, crc7, command_words, protected_words}
use testsystem.Spi.Crc.{register, crc7-register}

-- The number of four bytes, the highest first.
abbrev pub big_endian : ℕ → ℕ → ℕ → ℕ → ℕ
big_endian a b c d = ((a * 256 + b) * 256 + c) * 256 + d

-- A command token: a start bit 0, a bit 1, the index, the argument, the checksum and an end bit 1.
unfoldable pub read_token : List ℕ → Option (ℕ × ℕ)
read_token (t ∷ a ∷ b ∷ c ∷ d ∷ crc ∷ rest) =
    if t / 64 == 1 && crc == register 0 (t ∷ a ∷ b ∷ c ∷ d ∷ []) / 2 * 2 + 1
    then some (t % 64, big_endian a b c d)
    else none
read_token _ = none

-- The card waits for the first word whose byte is not idle.
unfoldable pub card : List ℕ → Option (ℕ × ℕ)
card [] = none
card (word ∷ words) =
    let rest = card words in if word % 256 == 0xff then rest else read_token (word ∷ words)

token_table : all_below 64 (λ c. bit_or 64 c % 65536 == 64 + c) ≡ true
unfolding all_below
token_table = refl

token_byte : (c : ℕ) → c < 64 → bit_or 64 c % 65536 ≡ 64 + c
token_byte c h =
    (==_iff (bit_or 64 c % 65536) (64 + c)).0
      (all_below-eq_true 64 (λ x. bit_or 64 x % 65536 == 64 + x) c token_table h)

end_bit_table : all_below 128 (λ n. bit_or (n * 2) 1 == n * 2 + 1) ≡ true
unfolding all_below
end_bit_table = refl

end_bit : (n : ℕ) → n < 128 → bit_or (n * 2) 1 ≡ n * 2 + 1
end_bit n h =
    (==_iff (bit_or (n * 2) 1) (n * 2 + 1)).0
      (all_below-eq_true 128 (λ x. bit_or (x * 2) 1 == x * 2 + 1) n end_bit_table h)

crc7_step-bound : (e : ℕ) → crc7_step e < 256
unfolding crc7_step
crc7_step-bound e = omega arith

crc7_loop-bound : (words : List ℕ) (r : ℕ) → r < 256 → crc7_loop r words < 256
unfolding crc7_loop
crc7_loop-bound [] r h = h
crc7_loop-bound (word ∷ words) r h =
    let e = bit_xor r (word % 256) % 256 in crc7_loop-bound words (crc7_step e) (crc7_step-bound e)

crc7-bound : (words : List ℕ) → crc7 words < 128
unfolding crc7
crc7-bound words = omega (arith, crc7_loop-bound words 0 (omega arith))

-- The card reads a token with a valid checksum behind an idle word.
card-token :
    (t a b c d crc : ℕ) (rest : List ℕ)
    → t / 64 ≡ 1
    → crc ≡ register 0 (t ∷ a ∷ b ∷ c ∷ d ∷ []) / 2 * 2 + 1
    → card (0xffff ∷ t ∷ a ∷ b ∷ c ∷ d ∷ crc ∷ rest) ≡ some (t % 64, big_endian a b c d)
unfolding card read_token
card-token t a b c d crc rest h k =
    let start : (t % 256 == 0xff) ≡ false = ground arith in
    let head : (t / 64 == 1) ≡ true = ground arith in
    let valid : (crc == register 0 (t ∷ a ∷ b ∷ c ∷ d ∷ []) / 2 * 2 + 1) ≡ true = ground arith in
    simp (start, head, valid) refl

bytes_of :
    (n : ℕ)
    → n < 2 ^ 32
    → big_endian (n / 2 ^ 24 % 256) (n / 2 ^ 16 % 256) (n / 2 ^ 8 % 256) (n % 256) ≡ n
bytes_of n h = omega arith

-- Where the index of CMD(0) has six bits and the argument 32, a card that skips idle words and
-- checks the CRC bit by bit reads that index and that argument from the words of `sendCommand`.
pub card-command_words :
    (cmd_macro : ℕ → ℕ) (arg : ℕ)
    → cmd_macro 0 < 64
    → arg < 2 ^ 32
    → card (command_words cmd_macro arg) ≡ some (cmd_macro 0, arg)
unfolding command_words
card-command_words cmd_macro arg h k =
    let words = protected_words cmd_macro arg in
    let t = bit_or 64 (cmd_macro 0) % 65536 in
    let e = token_byte (cmd_macro 0) h in
    let index : t % 64 ≡ cmd_macro 0 = omega (arith, e) in
    card-token t (arg / 2 ^ 24 % 256) (arg / 2 ^ 16 % 256) (arg / 2 ^ 8 % 256) (arg % 256)
      (bit_or (crc7 words * 2) 1) (replicate 17 0xffff) (omega (arith, e))
      (end_bit (crc7 words) (crc7-bound words) ∙ ap (λ n. n * 2 + 1) (crc7-register words))
    ∙ ap
        (λ n.
          some (
            n,
            big_endian (arg / 2 ^ 24 % 256) (arg / 2 ^ 16 % 256) (arg / 2 ^ 8 % 256) (arg % 256),
          ))
        index
    ∙ ap (λ n. some (cmd_macro 0, n)) (bytes_of arg k)

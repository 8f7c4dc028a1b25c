-- ===== src/Spi/Crc.antt =====
-- `crc7` against the checksum with the polynomial x^7 + x^3 + 1, one bit at a time.
use Prim.Native.Nat.{bit_xor}
use testsystem.Prelude.{
  ℕ, zero, suc, ◌*◌, ◌/◌, ◌%◌, ◌<◌, ◌≡◌, refl, ap, ◌∙◌, List, [], ◌∷◌, arith, true, leb, ◌==◌,
  if◌then◌else◌, ==_iff, all_below, all_below-eq_true,
}
use testsystem.Spi.{crc7_step, crc7_loop, crc7}

-- The register stands in the upper seven bits. A shift moves its top bit out, and that bit decides
-- whether the polynomial is subtracted.
abbrev pub shift : ℕ → ℕ
shift r = if leb 128 r then bit_xor (r * 2 % 256) 0x12 else r * 2 % 256

abbrev pub shifts : ℕ → ℕ → ℕ
shifts zero r = r
shifts (suc n) r = shifts n (shift r)

-- The register behind the words, of which the low bytes count.
unfoldable pub register : ℕ → List ℕ → ℕ
register r [] = r
register r (word ∷ words) = register (shifts 8 (bit_xor r (word % 256) % 256)) words

step_table : all_below 256 (λ e. crc7_step e == shifts 8 e) ≡ true
unfolding all_below crc7_step
step_table = refl

crc7_step-shifts : (e : ℕ) → e < 256 → crc7_step e ≡ shifts 8 e
crc7_step-shifts e h =
    (==_iff (crc7_step e) (shifts 8 e)).0
      (all_below-eq_true 256 (λ x. crc7_step x == shifts 8 x) e step_table h)

pub crc7_loop-register : (r : ℕ) (words : List ℕ) → crc7_loop r words ≡ register r words
unfolding crc7_loop register
crc7_loop-register r [] = refl
crc7_loop-register r (word ∷ words) =
    let e = bit_xor r (word % 256) % 256 in
    ap (λ n. crc7_loop n words) (crc7_step-shifts e (omega arith))
    ∙ crc7_loop-register (shifts 8 e) words

-- For every sequence of words, `crc7` is the checksum that the shift register computes.
pub crc7-register : (words : List ℕ) → crc7 words ≡ register 0 words / 2
unfolding crc7
crc7-register words = ap (λ n. n / 2) (crc7_loop-register 0 words)

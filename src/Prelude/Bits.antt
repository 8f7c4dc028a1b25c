-- ===== src/Prelude/Bits.antt =====
-- The binary digits of a number, and what `|` does to them.
use Prim.Native.Nat.{ℕ, zero, suc, ◌+◌, ◌*◌, ◌/◌, ◌%◌, ◌≤◌, max, bit_or, digits, bit_or-bitwise}
use mathlib.Core.Path.{◌≡◌, refl, ap, ◌∙◌}
use mathlib.Core.Bool.{Bool, false, ◌||◌}
use native.Mathlib.Nat.{le_refl}
use native.Mathlib.Omega.{arith}
use testsystem.Prelude.Tests.{◌==◌}

-- Whether bit `k` is set.
abbrev pub bit : ℕ → ℕ → Bool
bit zero n = n % 2 == 1
bit (suc k) n = bit k (n / 2)

pub bit-zero : (k : ℕ) → bit k 0 ≡ false
bit-zero zero = refl
bit-zero (suc k) = bit-zero k

abbrev or_digits : ℕ → ℕ → ℕ → ℕ
or_digits n a b = digits (λ b. b) max n a b

low_digit : (d a b : ℕ) → ((d * 2 + max (a % 2) (b % 2)) % 2 == 1) ≡ (a % 2 == 1 || b % 2 == 1)
low_digit d a b = ground arith

high_digits : (d a b : ℕ) → (d * 2 + max (a % 2) (b % 2)) / 2 ≡ d
high_digits d a b = ground arith

or_digits-bit : (n a b k : ℕ) → a ≤ n → bit k (or_digits n a b) ≡ (bit k a || bit k b)
or_digits-bit zero zero b k h = simp (bit-zero k) refl
or_digits-bit zero (suc a) b k h = absurd (omega arith)
or_digits-bit (suc n) zero b k h = simp (bit-zero k) refl
or_digits-bit (suc n) (suc a) b zero h = low_digit (or_digits n (suc a / 2) (b / 2)) (suc a) b
or_digits-bit (suc n) (suc a) b (suc k) h =
    ap (bit k) (high_digits (or_digits n (suc a / 2) (b / 2)) (suc a) b)
    ∙ or_digits-bit n (suc a / 2) (b / 2) k (omega arith)

pub bit-bit_or : (k a b : ℕ) → bit k (bit_or a b) ≡ (bit k a || bit k b)
bit-bit_or k a b = ap (bit k) (bit_or-bitwise a b) ∙ or_digits-bit a a b k (le_refl a)

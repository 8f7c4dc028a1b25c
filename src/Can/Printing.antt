-- ===== src/Can/Printing.antt =====
-- What `print_can_error` prints.
use Prim.Native.String.{String}
use native.Mathlib.Nat.{pow-suc}
use testsystem.Prelude.{
  ℕ, zero, suc, ◌+◌, ◌/◌, ◌%◌, ◌^◌, ◌<◌, ◌≡◌, refl, sym, ap, ◌∙◌, false, some, List, [], ◌∷◌, ◌++◌,
  arith, ◌==◌, if◌then◌else◌, Bool-cases, inl, inr,
}
use testsystem.Prelude.Bits.{bit, bit-zero}
use testsystem.Can.{
  Line, error, error_data, unknown, unknown_data, can_err_names, can_err_data_names, describe,
  print_bits, print_can_error,
}

-- The lines of the bits that are set among `w` bits from bit `j` on, in ascending order; the line of
-- bit `j` is that of number `i + j`.
abbrev pub lines_of : (ℕ → Line) → ℕ → ℕ → ℕ → ℕ → List Line
lines_of line i j zero n = []
lines_of line i j (suc w) n =
    let rest = lines_of line i (suc j) w n in if bit j n then line (i + j) ∷ rest else rest

module _ (line : ℕ → Line) where
  lines_of-shift : (i j w n : ℕ) → lines_of line (i + 1) j w (n / 2) ≡ lines_of line i (suc j) w n
  lines_of-shift i j zero n = refl
  lines_of-shift i j (suc w) n =
      let e : i + 1 + j ≡ i + suc j = omega arith in rw (lines_of-shift i (suc j) w n, e) refl

  lines_of-zero : (i j w : ℕ) → lines_of line i j w 0 ≡ []
  lines_of-zero i j zero = refl
  lines_of-zero i j (suc w) = simp (bit-zero j) (lines_of-zero i (suc j) w)

module _ (named : String → Line) (unnamed : ℕ → Line) (names : List String) where
  -- One turn, once the rest of the loop is known.
  turn :
      (i n w : ℕ)
      → print_bits named unnamed names w (i + 1) (n / 2)
        ≡ some (lines_of (describe named unnamed names) i 1 w n)
      → print_bits named unnamed names (suc w) i n
        ≡ some (lines_of (describe named unnamed names) i 0 (suc w) n)
  unfolding print_bits
  turn i zero w e = ap some (sym (lines_of-zero (describe named unnamed names) i 0 (suc w)))
  turn i (suc n) w e =
      let z : i + 0 ≡ i = omega arith in
      let more : (suc n == 0) ≡ false = ground arith in
      elim (Bool-cases (suc n % 2 == 1)) [
        | inl odd ↦ simp (e, odd, z, more) refl
        | inr even ↦ simp (e, even, more) refl
      ]

  half : (w n : ℕ) → n < 2 ^ suc w → n / 2 < 2 ^ w
  half w n h = ground (arith, pow-suc 2 w)

  print_bits_lem :
      (w i n : ℕ)
      → n < 2 ^ w
      → print_bits named unnamed names w i n
        ≡ some (lines_of (describe named unnamed names) i 0 w n)
  unfolding print_bits
  print_bits_lem zero i n h = ground arith
  print_bits_lem (suc w) i n h = turn i n w (
      print_bits_lem w (i + 1) (n / 2) (half w n h)
      ∙ ap some (lines_of-shift (describe named unnamed names) i 0 w n))

-- For masks of at most 64 bits, both loops end, and a line is printed for each bit that is set, in
-- ascending order, first those of the errors, then those of their data: with its name, or with its
-- number where the table is too short.
pub print_can_error_lem :
    (err err_data : ℕ)
    → err < 2 ^ 64
    → err_data < 2 ^ 64
    → print_can_error err err_data
      ≡ some (
          lines_of (describe error unknown can_err_names) 0 0 64 err
          ++ lines_of (describe error_data unknown_data can_err_data_names) 0 0 64 err_data)
unfolding print_can_error
print_can_error_lem err err_data h k =
    rw
      (
        print_bits_lem error unknown can_err_names 64 0 err h,
        print_bits_lem error_data unknown_data can_err_data_names 64 0 err_data k,
      )
      refl

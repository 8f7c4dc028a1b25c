-- ===== src/Can.antt =====
-- The error reports of the CAN test, src/c28x/can_test.c: the interrupt collects error bits, the
-- task takes them and prints a line for each. The masks have at most 64 bits, as the `uint64_t` that
-- the task copies them to; a step of the task between DINT and EINT is not interrupted.
-- Can/Echo has the messages that are sent back, Can/Modes the other modes of the task.
pub mod Printing
pub mod Polling
pub mod Echo
pub mod Modes
pub mod Link
pub mod Toggle
mod Tests
mod ModesTests
use Prim.Native.Nat.{bit_or}
use Prim.Native.String.{String}
use testsystem.Prelude.{
  ℕ, zero, suc, ◌+◌, ◌/◌, ◌%◌, Option, none, some, List, [], ◌∷◌, ◌++◌, get_elem?, ◌==◌,
  if◌then◌else◌,
}

-- A printed line.
pub data Line : Type 0 where
  error error_data : String → Line
  unknown unknown_data : ℕ → Line

-- The compiler joins the two literals that no comma separates.
unfoldable pub can_err_names : List String
can_err_names =
    "CAN_ERR_CTRL" ∷ "CAN_ERR_PROT" ∷ "CAN_ERR_TRXCAN_ERR_ACK" ∷ "CAN_ERR_BUSOFF"
    ∷ "CAN_ERR_BUSERROR" ∷ "CAN_ERR_RESTARTED" ∷ []

unfoldable pub can_err_data_names : List String
can_err_data_names =
    "CAN_ERR_CRTL_UNSPEC" ∷ "CAN_ERR_CRTL_RX_OVERFLOW" ∷ "CAN_ERR_CRTL_TX_OVERFLOW"
    ∷ "CAN_ERR_CRTL_RX_WARNING" ∷ "CAN_ERR_CRTL_TX_WARNING" ∷ "CAN_ERR_CRTL_RX_PASSIVE"
    ∷ "CAN_ERR_CRTL_TX_PASSIVE" ∷ "CAN_ERR_CRTL_ACTIVE" ∷ "CAN_ERR_PROT_UNSPEC" ∷ "CAN_ERR_PROT_BIT"
    ∷ "CAN_ERR_PROT_FORM" ∷ "CAN_ERR_PROT_STUFF" ∷ "CAN_ERR_PROT_BIT0" ∷ "CAN_ERR_PROT_BIT1"
    ∷ "CAN_ERR_PROT_OVERLOAD" ∷ "CAN_ERR_PROT_ACTIVE" ∷ "CAN_ERR_PROT_TX" ∷ "CAN_ERR_UNKNOWN"
    ∷ "CAN_ERR_UNKNOWN" ∷ "CAN_ERR_UNKNOWN" ∷ "CAN_ERR_UNKNOWN" ∷ "CAN_ERR_UNKNOWN"
    ∷ "CAN_ERR_UNKNOWN" ∷ "CAN_ERR_UNKNOWN" ∷ "CAN_ERR_PROT_LOC_UNSPEC" ∷ "CAN_ERR_PROT_LOC_SOF"
    ∷ "CAN_ERR_PROT_LOC_ID28_21" ∷ "CAN_ERR_PROT_LOC_ID20_18" ∷ "CAN_ERR_PROT_LOC_SRTR"
    ∷ "CAN_ERR_PROT_LOC_IDE" ∷ "CAN_ERR_PROT_LOC_ID17_13" ∷ "CAN_ERR_PROT_LOC_ID12_05"
    ∷ "CAN_ERR_PROT_LOC_ID04_00" ∷ "CAN_ERR_PROT_LOC_RTR" ∷ "CAN_ERR_PROT_LOC_RES1"
    ∷ "CAN_ERR_PROT_LOC_RES0" ∷ "CAN_ERR_PROT_LOC_DLC" ∷ "CAN_ERR_PROT_LOC_DATA"
    ∷ "CAN_ERR_PROT_LOC_CRC_SEQ" ∷ "CAN_ERR_PROT_LOC_CRC_DEL" ∷ "CAN_ERR_PROT_LOC_ACK"
    ∷ "CAN_ERR_PROT_LOC_ACK_DEL" ∷ "CAN_ERR_PROT_LOC_EOF" ∷ "CAN_ERR_PROT_LOC_INTERM"
    ∷ "CAN_ERR_UNKNOWN" ∷ "CAN_ERR_UNKNOWN" ∷ "CAN_ERR_UNKNOWN" ∷ "CAN_ERR_UNKNOWN"
    ∷ "CAN_ERR_TRX_UNSPEC" ∷ "CAN_ERR_TRX_CANH_NO_WIRE" ∷ "CAN_ERR_TRX_CANH_SHORT_TO_BAT"
    ∷ "CAN_ERR_TRX_CANH_SHORT_TO_VCC" ∷ "CAN_ERR_TRX_CANH_SHORT_TO_GND" ∷ "CAN_ERR_TRX_CANL_NO_WIRE"
    ∷ "CAN_ERR_TRX_CANL_SHORT_TO_BAT" ∷ "CAN_ERR_TRX_CANL_SHORT_TO_VCC"
    ∷ "CAN_ERR_TRX_CANL_SHORT_TO_GND" ∷ "CAN_ERR_TRX_CANL_SHORT_TO_CANH" ∷ []

-- The line for bit `i`: its name, or its number behind the end of the table.
module _ (named : String → Line) (unnamed : ℕ → Line) (names : List String) where
  abbrev pub describe : ℕ → Line
  describe i = elim (get_elem? names i) [ none ↦ unnamed i | some name ↦ named name ]

  -- A loop of `print_can_error` from bit `i` on, with a bound on its turns.
  unfoldable pub print_bits : ℕ → ℕ → ℕ → Option (List Line)
  print_bits zero i err = if err == 0 then some [] else none
  print_bits (suc turns) i err =
      let rest = print_bits turns (i + 1) (err / 2) in
      if err == 0
      then some []
      else if err % 2 == 1
      then elim rest [ none ↦ none | some lines ↦ some (describe i ∷ lines) ]
      else rest

abbrev pub both : Option (List Line) → Option (List Line) → Option (List Line)
both none b = none
both (some xs) none = none
both (some xs) (some ys) = some (xs ++ ys)

-- `none` is a loop that takes more turns than the masks have bits.
unfoldable pub print_can_error : ℕ → ℕ → Option (List Line)
print_can_error err err_data =
    both (print_bits error unknown can_err_names 64 0 err)
      (print_bits error_data unknown_data can_err_data_names 64 0 err_data)

-- The two globals.
pub record Errors : Type 0 where
  pub can_err : ℕ
  pub can_err_data : ℕ

abbrev pub no_errors : Errors
no_errors = record { can_err = 0; can_err_data = 0 }

unfoldable pub can_test_error : ℕ → ℕ → Errors → Errors
can_test_error err err_data s = record {
  can_err = bit_or s.can_err err;
  can_err_data = bit_or s.can_err_data err_data;
}

-- `if (can_err)` in a round of the task: the masks that it hands to `print_can_error`, if any.
unfoldable pub take_errors : Errors → Option (ℕ × ℕ) × Errors
take_errors s = if s.can_err == 0 then (none, s) else (some (s.can_err, s.can_err_data), no_errors)

-- What happens to the globals, in any order.
pub data Event : Type 0 where
  reported : ℕ → ℕ → Event
  polled : Event

abbrev pub cons? {ℓ} : {A : Type ℓ} → Option A → List A → List A
cons? none xs = xs
cons? (some x) xs = x ∷ xs

-- The masks that are printed, and the globals behind the last event.
unfoldable pub run : List Event → Errors → List (ℕ × ℕ) × Errors
unfolding can_test_error take_errors
run [] s = ([], s)
run (reported err err_data ∷ events) s = run events (can_test_error err err_data s)
run (polled ∷ events) s =
    let (taken, s1) = take_errors s in
    let (printed, s2) = run events s1 in (cons? taken printed, s2)

-- ===== src/Spi/Tests.antt =====
-- The reset command itself, and the theorems at concrete inputs.
use testsystem.Prelude.{
  ℕ, ◌≡◌, ◌≢◌, refl, ap, ◌∙◌, Bool, true, false, ◌==◌, some, List, [], ◌∷◌, ◌++◌, arith, replicate,
}
use testsystem.Prelude.Int.{ℤ, pos, negsuc, is_negative}
use testsystem.Spi.{crc7, crc7_loop, crc7_step, command_words, responses, send_command}
use testsystem.Spi.Bytes.{
  Driver, Slave, View, Reaches, transfer, transfer_loop, block, shift_all, transfer-block,
  transfer-selected,
}
use testsystem.Prelude.Task.{Ensures, ◌>>◌}
use testsystem.Spi.Start.{
  spitest_init, spi_task, all_lines, behind, answer_lines, Works, Rests, spi_task-answers,
}
use testsystem.Spi.Frame.{card, card-command_words}

-- The reset command ends with the byte 0x95.
reset_words : command_words (λ n. n) 0 ≡ 0xffff ∷ 0x40 ∷ 0 ∷ 0 ∷ 0 ∷ 0 ∷ 0x95 ∷ replicate 17 0xffff
unfolding command_words crc7 crc7_loop crc7_step
reset_words = refl

card-command_words_example : card (command_words (λ n. n) 0x1aa) ≡ some (0, 0x1aa)
card-command_words_example = card-command_words (λ n. n) 0x1aa (omega arith) (omega arith)

-- A card that answers 1 at index 8.
abbrev answering : List ℕ → ℤ × List ℕ
answering words = (pos 0, replicate 8 0xff ++ (1 ∷ replicate 15 0xff))

one_response : send_command (λ n. n) answering 0 0 ≡ some ((8, 1) ∷ [])
unfolding send_command responses
one_response = refl

-- A slave that answers with the word before.
abbrev delay_line : Slave ℕ
delay_line = record { select = λ s. 0xff; deselect = λ s. s; shift = λ word s. (s, word) }

-- The word 13 fails.
abbrev status_of : Bool → ℤ
status_of true = negsuc 0
status_of false = pos 0

abbrev shifted : Bool → ℕ → View ℕ → View ℕ
shifted true word w = w
shifted false word w = record w { slave = word }

abbrev one_by_one : Driver (View ℕ)
one_by_one = record {
  clear_pin = λ w. record { selected = true; slave = 0xff };
  set_pin = λ w. record w { selected = false };
  transfer_one = λ word w. (status_of (word == 13), w.slave, shifted (word == 13) word w);
}

keeps_selected : (b : Bool) (word : ℕ) (w : View ℕ) → (shifted b word w).selected ≡ w.selected
keeps_selected true word w = refl
keeps_selected false word w = refl

moves :
    (b : Bool) (word : ℕ) (w : View ℕ)
    → w.selected ≡ true
    → is_negative (status_of b) ≡ false
    → shifted b word w ≡ record { selected = true; slave = word }
moves true word w on good = absurd (ground (arith, good))
moves false word w on good = ap (λ (b : Bool). record w { selected = b; slave = word }) on

abbrev one_by_one_reaches : Reaches one_by_one delay_line
one_by_one_reaches = record {
  view = λ w. w;
  clears = λ w. refl;
  sets = λ w. refl;
  shifts = λ word w on good. (refl, moves (word == 13) word w on good);
  fails = λ word w on bad. keeps_selected (word == 13) word w ∙ on;
}

abbrev unselected : View ℕ
unselected = record { selected = false; slave = 0 }

transfer-block_example :
    ((transfer one_by_one (1 ∷ 2 ∷ 3 ∷ []) unselected).1 ≡ (block delay_line (1 ∷ 2 ∷ 3 ∷ []) 0).0)
    × ((transfer one_by_one (1 ∷ 2 ∷ 3 ∷ []) unselected).2
        ≡ record { selected = false; slave = (block delay_line (1 ∷ 2 ∷ 3 ∷ []) 0).1 })
unfolding transfer transfer_loop
transfer-block_example =
    transfer-block one_by_one delay_line one_by_one_reaches (1 ∷ 2 ∷ 3 ∷ []) unselected refl

-- The second word fails, and the chip select stays down.
transfer-selected_example :
    (transfer one_by_one (1 ∷ 13 ∷ 3 ∷ []) unselected).2.selected
    ≡ is_negative (transfer one_by_one (1 ∷ 13 ∷ 3 ∷ []) unselected).0
transfer-selected_example =
    transfer-selected one_by_one delay_line one_by_one_reaches (1 ∷ 13 ∷ 3 ∷ []) unselected

-- The same driver without a failure, and with words that are only received.
abbrev never_fails : Driver (View ℕ)
never_fails = record one_by_one {
  transfer_one = λ word w. (pos 0, w.slave, record w { slave = word });
}

abbrev never_fails_reaches : Reaches never_fails delay_line
never_fails_reaches = record {
  view = λ w. w;
  clears = λ w. refl;
  sets = λ w. refl;
  shifts = λ word w on good. (refl, moves false word w on refl);
  fails = λ word w on bad. absurd (ground (arith, bad));
}

abbrev only_received : ℕ → View ℕ → ℤ × View ℕ
only_received n w = (pos 0, w)

abbrev never_fails_works :
    Works never_fails only_received (λ n. n) delay_line never_fails_reaches (λ n s. s)
never_fails_works = record { words = λ word w. refl; received = λ n s w e. (refl, e) }

delay_line-answers : (s : ℕ) → answer_lines delay_line (λ n. n) s ≢ []
unfolding responses block shift_all command_words crc7 crc7_loop crc7_step
delay_line-answers s e = absurd (ground (arith, e))

-- Two commands to the slave that answers with the word before.
spi_task-answers_example :
    Ensures
      ((spitest_init never_fails true true true >> spi_task never_fails only_received (λ n. n) 2)
        unselected)
      (λ lines w'.
        (lines ≡ all_lines delay_line (λ n. n) 2 0xff)
        × Rests never_fails only_received
            (λ n. n)
            delay_line
            never_fails_reaches
            (behind delay_line (λ n. n) 2 0xff)
            w')
spi_task-answers_example =
    spi_task-answers never_fails only_received (λ n. n) delay_line never_fails_reaches (λ n s. s)
      never_fails_works 2 unselected 0 refl (delay_line-answers 0xff, (delay_line-answers _, tt))

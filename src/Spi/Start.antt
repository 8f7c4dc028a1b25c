-- ===== src/Spi/Start.antt =====
-- `spitest_init` and `spiTask` of src/s32k/spitest.c under CONFIG_SPI_TEST_SINGEL_BYTE, over
-- `sendCommand` and the transfer of single words. The block of the task behind its endless loop is
-- never reached. Whether the HAL finds the slave, the GPIO and the pin are parameters; the pointer
-- of `spi_init` is not tested.
use testsystem.Prelude.{
  ℕ, zero, suc, ◌+◌, ◌≡◌, ◌≢◌, refl, sym, ap, ◌∙◌, Bool, true, false, Option, none, some, List, [],
  ◌∷◌, take, drop,
}
use testsystem.Prelude.Int.{ℤ, pos, is_negative}
use testsystem.Prelude.Task.{
  Outcome, done, asserted, Task, ◌>>=◌, ◌>>◌, pure, assert, is_zero, checked, Ensures,
}
use testsystem.Spi.{
  sd_command_offset, sd_command_len, command_words, responses, found, send_command,
}
use testsystem.Spi.Bytes.{
  Driver, Slave, View, Reaches, transfer, transfer_loop, block, transfer-block,
}

-- `spiSlave_recv` of so many words: its status. The words are not used.
abbrev pub Recv : Type 0 → Type 0
Recv W = ℕ → W → ℤ × W

-- The printed lines of `sendCommand`, or its failed assertion.
abbrev pub printed_or : {W : Type 0} → Option (List (ℕ × ℕ)) → W → Outcome W (List (ℕ × ℕ))
printed_or none w = asserted
printed_or (some lines) w = done lines w

module _ {W : Type 0} (driver : Driver W) where
  abbrev pub set_pin : Task W (Unit {0})
  set_pin w = done tt (driver.set_pin w)

  abbrev pub clear_pin : Task W (Unit {0})
  clear_pin w = done tt (driver.clear_pin w)

  unfoldable pub spitest_init : Bool → Bool → Bool → Task W (Unit {0})
  spitest_init slave gpio cspin = do assert slave; assert gpio; assert cspin; set_pin

  -- The words that the card needs before its first command.
  unfoldable pub wake_card : Recv W → Task W (Unit {0})
  wake_card recv = do clear_pin; λ w. checked (recv 12 w); set_pin

  -- A round of the loop: the lines that it prints. The one transfer of `sendCommand` changes the world.
  unfoldable pub command_round : (ℕ → ℕ) → Task W (List (ℕ × ℕ))
  command_round cmd_macro w =
      printed_or
        (send_command cmd_macro
          (λ words. let (ret, recv, _) = transfer driver words w in (ret, recv)) (cmd_macro 0) 0)
        (transfer driver (command_words cmd_macro 0) w).2

  unfoldable pub command_rounds : (ℕ → ℕ) → ℕ → Task W (List (List (ℕ × ℕ)))
  command_rounds cmd_macro zero = pure []
  command_rounds cmd_macro (suc n) = do
    lines ← command_round cmd_macro
    rest ← command_rounds cmd_macro n
    pure (lines ∷ rest)

  unfoldable pub spi_task : Recv W → (ℕ → ℕ) → ℕ → Task W (List (List (ℕ × ℕ)))
  spi_task recv cmd_macro n = do wake_card recv; command_rounds cmd_macro n

-- A card on the bus: the command as one block, and the lines for its answer.
module _ {S : Type 0} (slave : Slave S) (cmd_macro : ℕ → ℕ) where
  abbrev pub answer : S → List ℕ × S
  answer s = block slave (command_words cmd_macro 0) s

  abbrev pub answer_lines : S → List (ℕ × ℕ)
  answer_lines s =
      responses (sd_command_offset + 5)
        (drop (sd_command_offset + 5) (take sd_command_len (answer s).0))

  -- The lines of so many commands, and the card behind them.
  abbrev pub all_lines : ℕ → S → List (List (ℕ × ℕ))
  all_lines zero s = []
  all_lines (suc n) s = answer_lines s ∷ all_lines n (answer s).1

  abbrev pub behind : ℕ → S → S
  behind zero s = s
  behind (suc n) s = behind n (answer s).1

  -- A card that answers every command of a run.
  abbrev pub Answers : ℕ → S → Type 0
  Answers zero s = Unit
  Answers (suc n) s = (answer_lines s ≢ []) × Answers n (answer s).1

found-some : (lines : List (ℕ × ℕ)) → lines ≢ [] → found lines ≡ some lines
found-some [] h = absurd (h refl)
found-some (line ∷ lines) h = refl

module _ {W S : Type 0} (driver : Driver W) (recv : Recv W) (cmd_macro : ℕ → ℕ) (slave : Slave S)
    (reaches : Reaches driver slave) where
  open reaches use {view, clears, sets}

  -- The chip select is not driven, and the card is in this state.
  abbrev pub Rests : S → W → Type 0
  Rests s w = view w ≡ record { selected = false; slave = s }

  -- No word fails, and the words that are only received change the card by `clock`.
  pub record Works (clock : ℕ → S → S) : Type 0 where
    pub words : (word : ℕ) (w : W) → is_negative (driver.transfer_one word w).0 ≡ false
    pub received :
        (n : ℕ) (s : S) (w : W)
        → view w ≡ record { selected = true; slave = s }
        → (is_zero (recv n w).0 ≡ true)
          × (view (recv n w).1 ≡ record { selected = true; slave = clock n s })

  module _ (clock : ℕ → S → S) (works : Works clock) where
    transfer_loop-fine :
        (ws : List ℕ) (ret : ℤ) (w : W)
        → is_negative ret ≡ false
        → is_negative (transfer_loop driver ws ret w).0 ≡ false
    unfolding transfer_loop
    transfer_loop-fine [] ret w e = e
    transfer_loop-fine (word ∷ ws) ret w e =
        let fine = works.words word w in
        let (ret', got, w') = driver.transfer_one word w in
        rw fine (transfer_loop-fine ws ret' w' fine)

    transfer-fine : (ws : List ℕ) (w : W) → is_negative (transfer driver ws w).0 ≡ false
    unfolding transfer
    transfer-fine ws w = transfer_loop-fine ws (pos 0) (driver.clear_pin w) refl

    command_round-Rests :
        (s : S) (w : W)
        → answer_lines slave cmd_macro s ≢ []
        → Rests s w
        → Ensures (command_round driver cmd_macro w) (λ lines w'.
          (lines ≡ answer_lines slave cmd_macro s) × Rests (answer slave cmd_macro s).1 w')
    unfolding command_round send_command
    command_round-Rests s w h e =
        let send = command_words cmd_macro 0 in
        let fine = transfer-fine send w in
        let (same, rests) = transfer-block driver slave reaches send w fine in
        let state = ap (λ (v : View S). v.slave) e in
        let words = same ∙ ap (λ s. (block slave send s).0) state in
        (
          answer_lines slave cmd_macro s,
          (transfer driver send w).2,
          simp (fine, words, found-some (answer_lines slave cmd_macro s) h) refl,
          (
            refl,
            rests ∙ ap (λ s. record { selected = false; slave = (block slave send s).1 }) state,
          ),
        )

    command_rounds-Rests :
        (n : ℕ) (s : S) (w : W)
        → Answers slave cmd_macro n s
        → Rests s w
        → Ensures (command_rounds driver cmd_macro n w) (λ lines w'.
          (lines ≡ all_lines slave cmd_macro n s) × Rests (behind slave cmd_macro n s) w')
    unfolding command_rounds
    command_rounds-Rests zero s w a e = ([], w, refl, (refl, e))
    command_rounds-Rests (suc n) s w (h, a) e =
        let (lines, w1, f, (l, e1)) = command_round-Rests s w h e in
        let (rest, w2, g, (r, e2)) = command_rounds-Rests n (answer slave cmd_macro s).1 w1 a e1 in
        (lines ∷ rest, w2, simp (f, g) refl, (simp (l, r) refl, e2))

    wake_card-Rests :
        (s : S) (w : W)
        → Rests s w
        → Ensures
            (wake_card driver recv w)
            (λ _ w'. Rests (slave.deselect (clock 12 (slave.select s))) w')
    unfolding wake_card
    wake_card-Rests s w e =
        let on =
          clears w
          ∙ ap (λ (v : View S). record { selected = true; slave = slave.select v.slave }) e in
        let (fine, f) = works.received 12 (slave.select s) (driver.clear_pin w) on in
        let w' = (recv 12 (driver.clear_pin w)).1 in
        (
          tt,
          driver.set_pin w',
          simp fine refl,
          sets w'
              ∙ ap (λ (v : View S). record { selected = false; slave = slave.deselect v.slave }) f,
        )

    -- Where the HAL finds what `spitest_init` asks for and no word fails on the bus, and the card
    -- answers every command, `spitest_init` and any number of rounds of `spiTask` pass all assertions.
    -- Each round prints what the card answers to the command as one block, and at the end the card is
    -- not selected and in the state behind as many such blocks.
    pub spi_task-answers :
        (n : ℕ) (w : W) (s : S)
        → (view (driver.set_pin w)).slave ≡ s
        → Answers slave cmd_macro n (slave.deselect (clock 12 (slave.select s)))
        → let awake = slave.deselect (clock 12 (slave.select s)) in
          Ensures
            ((spitest_init driver true true true >> spi_task driver recv cmd_macro n) w)
            (λ lines w'.
              (lines ≡ all_lines slave cmd_macro n awake)
              × Rests (behind slave cmd_macro n awake) w')
    unfolding spitest_init spi_task
    spi_task-answers n w s e a =
        let start : Rests s (driver.set_pin w) =
          sets w
          ∙ ap (λ s. record { selected = false; slave = s })
              (sym (ap (λ (v : View S). v.slave) (sets w)) ∙ e) in
        let (_, w1, f, r) = wake_card-Rests s (driver.set_pin w) start in
        let (lines, w2, g, q) =
          command_rounds-Rests n (slave.deselect (clock 12 (slave.select s))) w1 a r in
        (lines, w2, simp (f, g) refl, q)

-- ===== src/Spi/Bytes.antt =====
-- `transfer` under CONFIG_SPI_TEST_SINGEL_BYTE: the words go out one by one, and the task drives the
-- chip select itself. `W` is the world behind the calls.
use testsystem.Prelude.{
  ℕ, ◌≡◌, refl, sym, ap, ◌∙◌, subst, Bool, true, false, List, [], ◌∷◌, arith, Bool-cases, inl, inr,
  if◌then◌else◌,
}
use testsystem.Prelude.Int.{ℤ, pos, is_negative}
use testsystem.Spi.{command_words, send_command}

-- `gpioPin_clearPin` and `gpioPin_setPin` of the chip select, and `spiSlave_transfer` of one word: its
-- status, the word received, and the world behind it.
pub record Driver (W : Type 0) : Type 0 where
  pub clear_pin : W → W
  pub set_pin : W → W
  pub transfer_one : ℕ → W → ℤ × ℕ × W

module _ {W : Type 0} (driver : Driver W) where
  -- The loop, with `ret` so far; the words received, and the world. A failure returns at once.
  unfoldable pub transfer_loop : List ℕ → ℤ → W → ℤ × List ℕ × W
  transfer_loop [] ret w = (ret, [], driver.set_pin w)
  transfer_loop (word ∷ words) ret w =
      let (ret', got, w') = driver.transfer_one word w in
      let (last, recv, end) = transfer_loop words ret' w' in
      if is_negative ret' then (ret', [], w') else (last, got ∷ recv, end)

  unfoldable pub transfer : List ℕ → W → ℤ × List ℕ × W
  unfolding transfer_loop
  transfer send w = transfer_loop send (pos 0) (driver.clear_pin w)

-- A slave on the bus: what it shifts out for a word, and how the edges of its chip select change it.
pub record Slave (S : Type 0) : Type 0 where
  pub select : S → S
  pub deselect : S → S
  pub shift : ℕ → S → ℕ × S

-- A world with a slave: `selected` is the level of the chip select, inverted.
pub record View (S : Type 0) : Type 0 where
  pub selected : Bool
  pub slave : S

-- The driver reaches the slave: a word that goes out without an error while the slave is selected is
-- shifted, and an error leaves the chip select alone.
pub record Reaches {W S : Type 0} (driver : Driver W) (slave : Slave S) : Type 0 where
  pub view : W → View S
  pub clears :
      (w : W)
      → view (driver.clear_pin w) ≡ record { selected = true; slave = slave.select (view w).slave }
  pub sets :
      (w : W)
      → view (driver.set_pin w) ≡ record { selected = false; slave = slave.deselect (view w).slave }
  pub shifts :
      (word : ℕ) (w : W)
      → (view w).selected ≡ true
      → is_negative (driver.transfer_one word w).0 ≡ false
      → ((driver.transfer_one word w).1 ≡ (slave.shift word (view w).slave).0)
        × (view (driver.transfer_one word w).2
            ≡ record { selected = true; slave = (slave.shift word (view w).slave).1 })
  pub fails :
      (word : ℕ) (w : W)
      → (view w).selected ≡ true
      → is_negative (driver.transfer_one word w).0 ≡ true
      → (view (driver.transfer_one word w).2).selected ≡ true

-- The words in one go, as one `spiSlave_transfer` that drives the chip select moves them.
unfoldable pub shift_all : {S : Type 0} → Slave S → List ℕ → S → List ℕ × S
shift_all slave [] s = ([], s)
shift_all slave (word ∷ words) s =
    let (got, s') = slave.shift word s in
    let (recv, end) = shift_all slave words s' in (got ∷ recv, end)

unfoldable pub block : {S : Type 0} → Slave S → List ℕ → S → List ℕ × S
unfolding shift_all
block slave send s =
    let (recv, end) = shift_all slave send (slave.select s) in (recv, slave.deselect end)

module _ {W S : Type 0} (driver : Driver W) (slave : Slave S) (reaches : Reaches driver slave) where
  open reaches use {view, clears, sets, shifts, fails}

  -- The slave is still selected exactly if the status is an error.
  abbrev Settled : ℤ × List ℕ × W → Type 0
  Settled (ret, recv, w) = (view w).selected ≡ is_negative ret

  if-Settled :
      (b : Bool) (x y : ℤ × List ℕ × W)
      → (b ≡ true → Settled x)
      → (b ≡ false → Settled y)
      → Settled (if b then x else y)
  if-Settled true x y h k = h refl
  if-Settled false x y h k = k refl

  transfer_loop-Settled :
      (words : List ℕ) (ret : ℤ) (w : W)
      → (view w).selected ≡ true
      → is_negative ret ≡ false
      → Settled (transfer_loop driver words ret w)
  unfolding transfer_loop
  transfer_loop-Settled [] ret w on good = ap (λ x. x.selected) (sets w) ∙ sym good
  transfer_loop-Settled (word ∷ words) ret w on good =
      let (ret', got, w') = driver.transfer_one word w in
      let later = transfer_loop driver words ret' w' in
      if-Settled (is_negative ret') (ret', [], w') (later.0, got ∷ later.1, later.2)
        (λ e. fails word w on e ∙ sym e)
        (λ e. transfer_loop-Settled words ret' w' (ap (λ x. x.selected) (shifts word w on e).1) e)

  -- Behind the transfer the slave is still selected exactly if a word failed.
  pub transfer-selected :
      (send : List ℕ) (w : W)
      → let (ret, recv, end) = transfer driver send w in (view end).selected ≡ is_negative ret
  unfolding transfer
  transfer-selected send w =
      transfer_loop-Settled send (pos 0) (driver.clear_pin w) (ap (λ x. x.selected) (clears w)) refl

  -- What the slave sees of the rest of a transfer, if no word fails.
  abbrev Moves : List ℕ → S → ℤ × List ℕ × W → Type 0
  Moves words s (ret, recv, w) =
      (recv ≡ (shift_all slave words s).0)
      × (view w ≡ record { selected = false; slave = slave.deselect (shift_all slave words s).1 })

  transfer_loop-next :
      (word : ℕ) (words : List ℕ) (ret : ℤ) (w : W)
      → let (ret', got, w') = driver.transfer_one word w in
        let (last, recv, end) = transfer_loop driver words ret' w' in
        is_negative ret' ≡ false
        → transfer_loop driver (word ∷ words) ret w ≡ (last, got ∷ recv, end)
  unfolding transfer_loop
  transfer_loop-next word words ret w fine = simp fine refl

  transfer_loop-Moves :
      (words : List ℕ) (ret : ℤ) (w : W) (s : S)
      → view w ≡ record { selected = true; slave = s }
      → is_negative (transfer_loop driver words ret w).0 ≡ false
      → Moves words s (transfer_loop driver words ret w)
  unfolding transfer_loop shift_all
  transfer_loop-Moves [] ret w s e good = (
    refl,
    sets w ∙ ap (λ (x : View S). record { selected = false; slave = slave.deselect x.slave }) e,
  )
  transfer_loop-Moves (word ∷ words) ret w s e good =
      elim (Bool-cases (is_negative (driver.transfer_one word w).0)) [
        | inl bad ↦ absurd (ground (arith, good, bad))
        | inr fine ↦
            let (ret', got, w') = driver.transfer_one word w in
            let next = transfer_loop-next word words ret w fine in
            let shifted = shifts word w (ap (λ x. x.selected) e) fine in
            let here = ap (λ (x : View S). slave.shift word x.slave) e in
            let ih =
              transfer_loop-Moves words ret' w' (slave.shift word s).1
                (shifted.1 ∙ ap (λ (x : ℕ × S). record { selected = true; slave = x.1 }) here)
                (ap (λ (x : ℤ × List ℕ × W). is_negative x.0) (sym next) ∙ good) in
            subst (Moves (word ∷ words) s) (sym next) (
              ap (λ x. x ∷ (transfer_loop driver words ret' w').1)
                    (shifted.0 ∙ ap (λ (x : ℕ × S). x.0) here)
                  ∙ ap (λ xs. (slave.shift word s).0 ∷ xs) ih.0,
              ih.1,
            )
      ]

  -- Where no word fails, the words that go out one by one bring the same answer, and leave the slave
  -- in the same state, as the words in one go, and the slave is no longer selected.
  pub transfer-block :
      (send : List ℕ) (w : W)
      → is_negative (transfer driver send w).0 ≡ false
      → ((transfer driver send w).1 ≡ (block slave send (view w).slave).0)
        × (view (transfer driver send w).2
            ≡ record { selected = false; slave = (block slave send (view w).slave).1 })
  unfolding transfer block
  transfer-block send w good =
      transfer_loop-Moves send (pos 0) (driver.clear_pin w) (slave.select (view w).slave) (clears w)
        good

-- `sendCommand` over the words one by one, and over a transfer in one go with any status that is no
-- error.
send_command-block :
    {W S : Type 0} (driver : Driver W) (slave : Slave S) (reaches : Reaches driver slave)
    (cmd_macro : ℕ → ℕ) (cmd arg status : ℕ) (w : W)
    → let send = command_words cmd_macro arg in
      is_negative (transfer driver send w).0 ≡ false
      → send_command cmd_macro
          (λ ws. let (ret, recv, end) = transfer driver ws w in (ret, recv))
          cmd
          arg
        ≡ send_command cmd_macro
            (λ ws. (pos status, (block slave ws (reaches.view w).slave).0))
            cmd
            arg
unfolding send_command
send_command-block driver slave reaches cmd_macro cmd arg status w good =
    let same = (transfer-block driver slave reaches (command_words cmd_macro arg) w good).0 in
    simp (good, same) refl

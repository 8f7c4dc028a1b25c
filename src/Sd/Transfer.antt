-- ===== src/Sd/Transfer.antt =====
-- Single calls against a conforming card, and the read-write test.
use testsystem.Prelude.{ℕ, ◌≡◌, refl, sym, ap, ◌∙◌, subst, true, Option, none, List, [], ◌∷◌, arith}
use testsystem.Prelude.Task.{
  Ensures, Ensures-and_then, checked, checked_result, checked-Ensures, checked_result-Ensures,
  assert-Ensures,
}
use testsystem.Sd.{Cmd, cmd, Host, command, same_bytes, test_read_write, data_len}
use testsystem.Sd.Card.{
  Card, transfer, sending, receiving, Responds, stop_reading, stop_writing, Gives, Conforms,
}

same_bytes_self : (xs : List ℕ) → same_bytes xs xs ≡ true
unfolding same_bytes
same_bytes_self [] = refl
same_bytes_self (x ∷ xs) = ground (arith, same_bytes_self xs)

module _ {W : Type 0} (host : Host W) (card : Conforms host) where
  open card use {view, commands, block_sizes, reads, writes, bus_widths, clocks}

  -- A command to a card in a known state.
  pub command-Ensures :
      (c : Cmd) (arg : ℕ) (w : W) (k : Card) (r : Option ℕ) (k' : Card)
      → view w ≡ k
      → Responds k c arg r k'
      → Ensures (command host c arg w) (λ d w'. Gives r d × (view w' ≡ k'))
  command-Ensures c arg w k r k' e h =
      let a = commands c arg w r k' (subst (λ x. Responds x c arg r k') (sym e) h) in
      checked_result-Ensures (host.send_command c arg w) _ a.0 (a.1, a.2)

  -- The other calls, in transfer mode.
  module _ (w : W) (k : Card) (e : view w ≡ k) (m : k.mode ≡ transfer) where
    in_transfer : (view w).mode ≡ transfer
    in_transfer = ap (λ x. x.mode) e ∙ m

    block_size-Ensures : Ensures (checked (host.set_block_size w)) (λ a w'. view w' ≡ k)
    block_size-Ensures =
        let a = block_sizes w in_transfer in checked-Ensures (host.set_block_size w) _ a.0 (a.1 ∙ e)

    read-Ensures :
        Ensures
          (checked_result (host.read (cmd 18) 0 data_len w))
          (λ bytes w'. (bytes ≡ k.content) × (view w' ≡ record k { mode = sending }))
    read-Ensures =
        let a = reads w in_transfer in
        checked_result-Ensures (host.read (cmd 18) 0 data_len w) _ a.0 (
          a.1 ∙ ap (λ (x : Card). x.content) e,
          a.2 ∙ ap (λ (x : Card). record x { mode = sending }) e,
        )

    write-Ensures :
        (bytes : List ℕ)
        → Ensures
            (checked (host.write (cmd 25) 0 bytes w))
            (λ a w'. view w' ≡ record k { mode = receiving; content = bytes })
    write-Ensures bytes =
        let a = writes w bytes in_transfer in
        checked-Ensures (host.write (cmd 25) 0 bytes w) _ a.0
          (a.1 ∙ ap (λ (x : Card). record x { mode = receiving; content = bytes }) e)

    pub bus_wide-Ensures : Ensures (checked (host.set_bus_wide w)) (λ a w'. view w' ≡ k)
    bus_wide-Ensures =
        let a = bus_widths w in_transfer in checked-Ensures (host.set_bus_wide w) _ a.0 (a.1 ∙ e)

    pub clock-Ensures : (hz : ℕ) → Ensures (checked (host.set_clock hz w)) (λ a w'. view w' ≡ k)
    clock-Ensures hz =
        let a = clocks w hz in_transfer in checked-Ensures (host.set_clock hz w) _ a.0 (a.1 ∙ e)

  -- A card in transfer mode passes the read-write test, and keeps its content.
  pub test_read_write-Ensures :
      (w : W) (k : Card)
      → view w ≡ k
      → k.mode ≡ transfer
      → Ensures (test_read_write host w) (λ a w'. view w' ≡ record k { mode = transfer })
  unfolding test_read_write
  test_read_write-Ensures w k e m =
      let Post = λ (a : Unit {0}) (w' : W). view w' ≡ record k { mode = transfer } in
      Ensures-and_then _ _ Post (block_size-Ensures w k e m) λ _ w1 e1.
        Ensures-and_then _ _ Post (read-Ensures w1 k e1 m) λ bytes w2 r.
          Ensures-and_then _ _ Post (command-Ensures (cmd 12) 0 w2 _ none _ r.1 (stop_reading refl))
            λ _ w3 s3. Ensures-and_then _ _ Post (write-Ensures w3 _ s3.1 refl bytes) λ _ w4 e4.
              Ensures-and_then _ _ Post
                (command-Ensures (cmd 12) 0 w4 _ none _ e4 (stop_writing refl))
                λ _ w5 s5. Ensures-and_then _ _ Post (read-Ensures w5 _ s5.1 refl) λ bytes2 w6 r6.
                  Ensures-and_then _ _ Post
                    (command-Ensures (cmd 12) 0 w6 _ none _ r6.1 (stop_reading refl))
                    λ _ w7 s7.
                      assert-Ensures (same_bytes bytes bytes2) w7 Post
                        (ap (same_bytes bytes) r6.0 ∙ same_bytes_self bytes)
                        (s7.1
                          ∙ ap {A = List ℕ} (λ c. record k { mode = transfer; content = c }) r.0)

-- ===== src/Sd/Start.antt =====
-- The start of the card, and the whole test.
use testsystem.Prelude.{
  ℕ, zero, suc, ◌+◌, ◌*◌, ◌/◌, ◌%◌, ◌^◌, ◌<◌, ◌≡◌, refl, ap, ◌∙◌, true, false, none, arith, ◌==◌,
  if◌then◌else◌,
}
use testsystem.Prelude.Task.{pure, Ensures, Ensures-and_then, assert-Ensures}
use testsystem.Sd.{cmd, acmd, Host, wait_ready, sdtest_task, check_arg, ocr_arg}
use testsystem.Sd.Card.{
  Card, idle, ready, transfer, go_idle, check, app_command, busy, powered, all_send_cid,
  send_address, select, set_wide, Conforms,
}
use testsystem.Sd.Transfer.{
  command-Ensures, bus_wide-Ensures, clock-Ensures, test_read_write-Ensures,
}

module _ {W : Type 0} (host : Host W) (card : Conforms host) where
  open card use {view}

  is_powered : (r ocr : ℕ) → ocr < 2 ^ 31 → r ≡ ocr + 2 ^ 31 → (r / 2 ^ 31 % 2 == 1) ≡ true
  is_powered r ocr h e = ground arith

  is_busy : (r ocr : ℕ) → ocr < 2 ^ 31 → r ≡ ocr → (r / 2 ^ 31 % 2 == 1) ≡ false
  is_busy r ocr h e = ground arith

  is_checked : (r : ℕ) → r ≡ check_arg → (r % 2 ^ 12 == check_arg) ≡ true
  is_checked r e = ground arith

  address :
      (r rca low : ℕ) → low < 2 ^ 16 → r ≡ rca * 2 ^ 16 + low → r / 2 ^ 16 * 2 ^ 16 ≡ rca * 2 ^ 16
  address r rca low h e = omega arith

  -- With more turns than the card is busy, the loop ends, and the card is ready.
  wait_ready-Ensures :
      (polls turns : ℕ) (w : W) (k : Card)
      → view w ≡ k
      → k.mode ≡ idle
      → k.ocr < 2 ^ 31
      → k.polls ≡ polls
      → polls < turns
      → Ensures
          (wait_ready host turns w)
          (λ a w'. view w' ≡ record k { mode = ready; app = false; polls = 0 })
  unfolding wait_ready
  wait_ready-Ensures zero zero w k e m o p h = absurd (omega (arith, h))
  wait_ready-Ensures (suc n) zero w k e m o p h = absurd (omega (arith, h))
  wait_ready-Ensures zero (suc turns) w k e m o p h =
      let Post =
        λ (a : Unit {0}) (w' : W). view w' ≡ record k { mode = ready; app = false; polls = 0 } in
      Ensures-and_then _ _ Post (command-Ensures host card (cmd 55) 0 w k none _ e (app_command 0))
        λ _ w1 s1.
          Ensures-and_then _ _ Post
            (command-Ensures host card (acmd 41) ocr_arg w1 _ _ _ s1.1 (powered ocr_arg m refl p))
            λ r w2 s2.
              let test = is_powered r k.ocr o s2.0 in
              (
                tt,
                w2,
                ap (λ b. (if b then pure tt else wait_ready host turns) w2) test,
                s2.1 ∙ ap {A = ℕ} (λ n. record k { mode = ready; app = false; polls = n }) p,
              )
  wait_ready-Ensures (suc n) (suc turns) w k e m o p h =
      let Post =
        λ (a : Unit {0}) (w' : W). view w' ≡ record k { mode = ready; app = false; polls = 0 } in
      Ensures-and_then _ _ Post (command-Ensures host card (cmd 55) 0 w k none _ e (app_command 0))
        λ _ w1 s1.
          Ensures-and_then _ _ Post
            (command-Ensures host card (acmd 41) ocr_arg w1 _ _ _ s1.1 (busy ocr_arg n m refl p))
            λ r w2 s2.
              let test = is_busy r k.ocr o s2.0 in
              let rest =
                wait_ready-Ensures n turns w2 (record k { app = false; polls = n }) s2.1 m o refl
                  (omega (arith, h)) in
              (
                rest.0,
                rest.1,
                ap (λ b. (if b then pure tt else wait_ready host turns) w2) test ∙ rest.2,
                rest.3,
              )

  -- A card that conforms to the specification, says that it is busy fewer times than the loop has
  -- turns, and whose operating conditions and status bits have at most 31 and 16 bits, passes the
  -- whole test: `sdtest_task` comes to its end without a failed assertion, with the card in transfer
  -- mode and its content as it was before.
  pub sdtest_task-Ensures :
      (turns : ℕ) (w : W)
      → (view w).polls < turns
      → (view w).ocr < 2 ^ 31
      → (view w).low < 2 ^ 16
      → Ensures
          (sdtest_task host turns w)
          (λ a w'. ((view w').mode ≡ transfer) × ((view w').content ≡ (view w).content))
  unfolding sdtest_task
  sdtest_task-Ensures turns w p o l =
      let k = view w in
      let Post =
        λ (a : Unit {0}) (w' : W). ((view w').mode ≡ transfer) × ((view w').content ≡ k.content) in
      Ensures-and_then _ _ Post (command-Ensures host card (cmd 0) 0 w k none _ refl go_idle)
        λ _ w1 s1.
          Ensures-and_then _ _ Post
            (command-Ensures host card (cmd 8) check_arg w1 _ _ _ s1.1 (check check_arg refl))
            λ r w2 s2.
              Ensures-and_then _ _ Post
                (assert-Ensures (r % 2 ^ 12 == check_arg) w2 (λ _ v. v ≡ w2) (is_checked r s2.0)
                  refl)
                λ _ w3 e3.
                  Ensures-and_then _ _ Post
                    (wait_ready-Ensures k.polls turns w3 _ (ap view e3 ∙ s2.1) refl o refl p)
                    λ _ w4 e4.
                      Ensures-and_then _ _ Post
                        (command-Ensures host card (cmd 2) 0 w4 _ none _ e4 (all_send_cid refl))
                        λ _ w5 s5.
                          Ensures-and_then _ _ Post
                            (command-Ensures host card (cmd 3) 0 w5 _ _ _ s5.1 (send_address refl))
                            λ r6 w6 s6.
                              let rca = r6 / 2 ^ 16 * 2 ^ 16 in
                              Ensures-and_then _ _ Post
                                (command-Ensures host card (cmd 7) rca w6 _ none _ s6.1
                                  (select rca refl (address r6 k.rca k.low l s6.0)))
                                λ _ w7 s7.
                                  Ensures-and_then _ _ Post
                                    (test_read_write-Ensures host card w7 _ s7.1 refl)
                                    λ _ w8 e8.
                                      Ensures-and_then _ _ Post
                                        (command-Ensures host card (cmd 55) rca w8 _ none _ e8
                                          (app_command rca))
                                        λ _ w9 s9.
                                          Ensures-and_then _ _ Post
                                            (command-Ensures host card (acmd 6) 2 w9 _ none _ s9.1
                                              (set_wide refl refl))
                                            λ _ w10 s10.
                                              Ensures-and_then _ _ Post
                                                (bus_wide-Ensures host card w10 _ s10.1 refl)
                                                λ _ w11 e11.
                                                  Ensures-and_then _ _ Post
                                                    (test_read_write-Ensures host card w11 _ e11
                                                      refl)
                                                    λ _ w12 e12.
                                                      Ensures-and_then _ _ Post
                                                        (clock-Ensures host card w12 _ e12 refl
                                                          48000000)
                                                        λ _ w13 e13.
                                                          let last =
                                                            test_read_write-Ensures host card w13 _
                                                            e13 refl in
                                                          (
                                                            last.0,
                                                            last.1,
                                                            last.2,
                                                            (
                                                            ap (λ (x : Card). x.mode) last.3,
                                                            ap (λ (x : Card). x.content) last.3,
                                                            ),
                                                          )

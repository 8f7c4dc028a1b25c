-- ===== src/Can/Link/Delivery.antt =====
-- The messages of the sender of Can/Link reach the receiver and are printed.
use testsystem.Prelude.{
  ℕ, zero, suc, ◌+◌, ◌≤◌, ◌≡◌, refl, ap, ◌∙◌, subst, true, false, Option, none, some, List, [], ◌∷◌,
  ◌++◌, arith, replicate,
}
use testsystem.Prelude.Int.{ℤ}
use testsystem.Prelude.Task.{Task, ◌>>=◌, ◌>>◌, pure, Ensures}
use testsystem.Can.{no_errors, can_test_error}
use testsystem.Can.Modes.{recv_filter, recv_start, send_start, send_round}
use testsystem.Flexcan.{Can}
use testsystem.Can.Link.{
  wire, Linked, Step, send_turn, recv_turn, sender_error, receiver_error, Boards, sent, run_boards,
  times_sent, messages, failures, test_line,
}
use testsystem.Can.Link.Turns.{Running, Printed, Turn, sent-Printed, Turn-nothing, Turn-message}

module _ {W : Type 0} (sender receiver : Can W) (linked : Linked sender receiver) where
  open linked use {view, sender_ups, receiver_ups, registers}

  -- The run ends with every message printed.
  abbrev pub AllPrinted : ℕ → Option (Boards W) → Type 0
  AllPrinted n o =
      (s : Boards W) × (o ≡ some s)
      × (messages s.receiver_out ≡ replicate n test_line)
      × (failures s.sender_out ≡ [])

  Turn-AllPrinted :
      (i : ℤ) (waiting printed n : ℕ) (steps : List Step) (s : Boards W)
      → Turn sender receiver linked i waiting printed s
      → ((s' : Boards W)
          → Printed sender receiver linked i waiting printed s'
          → AllPrinted n (run_boards sender receiver i steps s'))
      → AllPrinted n (run_boards sender receiver i (recv_turn ∷ steps) s)
  unfolding run_boards
  Turn-AllPrinted i waiting printed n steps s (s', e, p) h = rw e (h s' p)

  drains :
      (turns waiting printed : ℕ) (i : ℤ) (s : Boards W)
      → waiting ≤ turns
      → Printed sender receiver linked i waiting printed s
      → AllPrinted (waiting + printed) (run_boards sender receiver i (replicate turns recv_turn) s)
  unfolding run_boards
  drains zero zero printed i s h (e, m, f) =
      (s, refl, m ∙ ap (λ n. replicate n test_line) (omega arith), f)
  drains zero (suc waiting) printed i s h p = absurd (omega (arith, h))
  drains (suc turns) zero printed i s h p =
      Turn-AllPrinted i 0 printed (0 + printed) (replicate turns recv_turn) s
        (Turn-nothing sender receiver linked i printed s p)
        (λ s' p'. drains turns 0 printed i s' (omega arith) p')
  drains (suc turns) (suc waiting) printed i s h p =
      Turn-AllPrinted i waiting (suc printed) (suc waiting + printed) (replicate turns recv_turn) s
        (Turn-message sender receiver linked i waiting printed s p)
        (λ s' p'.
          subst (λ n. AllPrinted n (run_boards sender receiver i (replicate turns recv_turn) s'))
            (omega arith) (drains turns waiting (suc printed) i s' (omega (arith, h)) p'))

  run-AllPrinted :
      (steps : List Step) (turns waiting printed : ℕ) (i : ℤ) (s : Boards W)
      → waiting + times_sent steps ≤ turns
      → Printed sender receiver linked i waiting printed s
      → AllPrinted
          (waiting + printed + times_sent steps)
          (run_boards sender receiver i (steps ++ replicate turns recv_turn) s)
  unfolding run_boards
  run-AllPrinted [] turns waiting printed i s h p =
      subst (λ n. AllPrinted n (run_boards sender receiver i (replicate turns recv_turn) s))
        (omega arith) (drains turns waiting printed i s (omega (arith, h)) p)
  run-AllPrinted (send_turn ∷ steps) turns waiting printed i s h p =
      let s' = sent sender receiver i (send_round sender s.bus s.sender_errors) s in
      subst
        (λ n. AllPrinted n (run_boards sender receiver i (steps ++ replicate turns recv_turn) s'))
        (omega arith)
        (run-AllPrinted steps turns (suc waiting) printed i s' (omega (arith, h))
          (sent-Printed sender receiver linked i waiting printed s p))
  run-AllPrinted (recv_turn ∷ steps) turns zero printed i s h p =
      Turn-AllPrinted i 0 printed (0 + printed + times_sent steps)
        (steps ++ replicate turns recv_turn) s (Turn-nothing sender receiver linked i printed s p)
        (λ s' p'. run-AllPrinted steps turns 0 printed i s' h p')
  run-AllPrinted (recv_turn ∷ steps) turns (suc waiting) printed i s h p =
      Turn-AllPrinted i waiting (suc printed) (suc waiting + printed + times_sent steps)
        (steps ++ replicate turns recv_turn) s
        (Turn-message sender receiver linked i waiting printed s p)
        (λ s' p'.
          subst
            (λ n.
              AllPrinted n (run_boards sender receiver i (steps ++ replicate turns recv_turn) s'))
            (omega arith)
            (run-AllPrinted steps turns waiting (suc printed) i s' (omega (arith, h)) p'))
  run-AllPrinted (sender_error err err_data ∷ steps) turns waiting printed i s h p =
      run-AllPrinted steps turns waiting printed i
        (record s { sender_errors = can_test_error err err_data s.sender_errors }) h p
  run-AllPrinted (receiver_error err err_data ∷ steps) turns waiting printed i s h p =
      run-AllPrinted steps turns waiting printed i
        (record s { receiver_errors = can_test_error err err_data s.receiver_errors }) h p

  -- The receiver starts first.
  abbrev pub start_boards : Task W ℤ
  start_boards = do filter_id ← recv_start receiver true; send_start sender true; pure filter_id

  abbrev pub fresh : W → Boards W
  fresh w = record {
    bus = w;
    sender_errors = no_errors;
    receiver_errors = no_errors;
    sender_out = [];
    receiver_out = [];
  }

  start_boards-Running :
      (w : W)
      → view w ≡ wire false false none []
      → Ensures (start_boards w) (λ i w'. Running sender receiver linked i 0 w')
  unfolding recv_start send_start
  start_boards-Running w e =
      let (up, e1) = receiver_ups false none [] w e in
      let w1 = (receiver.up w).1 in
      let (registered, e2) = registers false recv_filter w1 e1 in
      let (i, w2) = receiver.register_filter recv_filter w1 in
      let (up2, e3) = sender_ups true (some (i, recv_filter)) [] w2 e2 in
      (i, (sender.up w2).1, simp (up, registered, up2) refl, e3)

  -- On a bus that brings the messages of the sender to the receiver, both boards start without a
  -- failed assertion, and behind that, in any order of their rounds and of the errors that their
  -- interrupts report, and then as many rounds of the receiver as there were of the sender, the
  -- receiver has printed the message of the sender exactly once for each round of the sender, and the
  -- sender no failure.
  pub boards-AllPrinted :
      (steps : List Step) (w : W)
      → view w ≡ wire false false none []
      → Ensures (start_boards w) (λ i w'.
        AllPrinted (times_sent steps) (
          run_boards sender receiver i
            (steps ++ replicate (times_sent steps) recv_turn)
            (fresh w')))
  boards-AllPrinted steps w e =
      let (i, w', f, r) = start_boards-Running w e in
      let events = steps ++ replicate (times_sent steps) recv_turn in
      (
        i,
        w',
        f,
        subst (λ n. AllPrinted n (run_boards sender receiver i events (fresh w'))) (omega arith)
            (run-AllPrinted steps (times_sent steps) 0 0 i (fresh w') (omega arith)
              (r, refl, refl)),
      )

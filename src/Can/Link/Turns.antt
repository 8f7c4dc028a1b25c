-- ===== src/Can/Link/Turns.antt =====
-- The single steps of the two boards of Can/Link.
use testsystem.Prelude.{
  ℕ, zero, suc, ◌≡◌, refl, ap, ◌∙◌, true, false, Option, none, some, List, [], ◌∷◌, ◌++◌,
  append-nil, replicate,
}
use testsystem.Prelude.Int.{ℤ, is_negative}
use testsystem.Prelude.Task.{is_zero}
use testsystem.Can.{Errors, take_errors}
use testsystem.Can.Modes.{
  Output, msg_received, nothing, send_failed, can_error, test_msg, recv_filter, error_line,
  recv_line, recv_round, send_round,
}
use testsystem.Flexcan.{Can}
use testsystem.Can.Link.{wire, Linked, Boards, sent, got, messages, failures, test_line}

messages-append : (xs ys : List Output) → messages (xs ++ ys) ≡ messages xs ++ messages ys
messages-append [] ys = refl
messages-append (msg_received n bytes ∷ xs) ys =
    ap (λ l. msg_received n bytes ∷ l) (messages-append xs ys)
messages-append (nothing ∷ xs) ys = messages-append xs ys
messages-append (send_failed ∷ xs) ys = messages-append xs ys
messages-append (can_error err err_data ∷ xs) ys = messages-append xs ys

failures-append : (xs ys : List Output) → failures (xs ++ ys) ≡ failures xs ++ failures ys
failures-append [] ys = refl
failures-append (msg_received n bytes ∷ xs) ys = failures-append xs ys
failures-append (nothing ∷ xs) ys = failures-append xs ys
failures-append (send_failed ∷ xs) ys = ap (λ l. send_failed ∷ l) (failures-append xs ys)
failures-append (can_error err err_data ∷ xs) ys = failures-append xs ys

messages-error : (taken : Option (ℕ × ℕ)) → messages (error_line taken) ≡ []
messages-error none = refl
messages-error (some masks) = refl

failures-error : (taken : Option (ℕ × ℕ)) → failures (error_line taken) ≡ []
failures-error none = refl
failures-error (some masks) = refl

replicate-snoc : {A : Type 0} (n : ℕ) (x : A) → replicate n x ++ (x ∷ []) ≡ replicate (suc n) x
replicate-snoc zero x = refl
replicate-snoc (suc n) x = ap (λ l. x ∷ l) (replicate-snoc n x)

module _ {W : Type 0} (sender receiver : Can W) (linked : Linked sender receiver) where
  open linked use {view, sender_ups, receiver_ups, registers, sends, receives, empties}

  -- Both boards run, with `waiting` messages on the way.
  abbrev pub Running : ℤ → ℕ → W → Type 0
  Running i waiting w = view w ≡ wire true true (some (i, recv_filter)) (replicate waiting test_msg)

  abbrev pub Printed : ℤ → ℕ → ℕ → Boards W → Type 0
  Printed i waiting printed s =
      Running i waiting s.bus
      × (messages s.receiver_out ≡ replicate printed test_line)
      × (failures s.sender_out ≡ [])

  send_round-fine :
      (w : W) (s : Errors)
      → is_negative (sender.send test_msg w).0 ≡ false
      → let (taken, s') = take_errors s in
        send_round sender w s ≡ (error_line taken, (sender.send test_msg w).1, s')
  unfolding send_round
  send_round-fine w s e = simp e refl

  pub sent-Printed :
      (i : ℤ) (waiting printed : ℕ) (s : Boards W)
      → Printed i waiting printed s
      → Printed i
          (suc waiting)
          printed
          (sent sender receiver i (send_round sender s.bus s.sender_errors) s)
  sent-Printed i waiting printed s (e, m, f) =
      let (fine, arrived) = sends test_msg i recv_filter (replicate waiting test_msg) s.bus e in
      let taken = (take_errors s.sender_errors).0 in
      rw (send_round-fine s.bus s.sender_errors fine) (
        arrived ∙ ap (wire true true (some (i, recv_filter))) (replicate-snoc waiting test_msg),
        m,
        failures-append s.sender_out (error_line taken)
            ∙ ap (λ l. l ++ failures (error_line taken)) f
            ∙ failures-error taken,
      )

  -- A round of the receiver prints a line and the errors.
  recv_round-line :
      (i : ℤ) (w : W) (s : Errors) (line : Output)
      → recv_line (is_zero (receiver.recv i w).0) (receiver.recv i w).1 ≡ some line
      → let (taken, s') = take_errors s in
        recv_round receiver i w s
        ≡ some ((line ∷ []) ++ error_line taken, (receiver.recv i w).2, s')
  unfolding recv_round
  recv_round-line i w s line e = simp e refl

  messages-line :
      (out : List Output) (line : Output) (taken : Option (ℕ × ℕ))
      → messages (out ++ ((line ∷ []) ++ error_line taken)) ≡ messages out ++ messages (line ∷ [])
  messages-line out line taken =
      messages-append out ((line ∷ []) ++ error_line taken)
      ∙ ap (λ l. messages out ++ l)
          (messages-append (line ∷ []) (error_line taken)
            ∙ ap (λ l. messages (line ∷ []) ++ l) (messages-error taken)
            ∙ append-nil (messages (line ∷ [])))

  -- The turn of the receiver, with the message that waits or without one.
  abbrev pub Turn : ℤ → ℕ → ℕ → Boards W → Type 0
  Turn i waiting printed s =
      (s' : Boards W) × (got sender receiver i (recv_round receiver i s.bus s.receiver_errors) s
        ≡ some s')
      × Printed i waiting printed s'

  Turn-line :
      (i : ℤ) (waiting printed : ℕ) (s : Boards W) (line : Output)
      → recv_line (is_zero (receiver.recv i s.bus).0) (receiver.recv i s.bus).1 ≡ some line
      → Running i waiting (receiver.recv i s.bus).2
      → messages s.receiver_out ++ messages (line ∷ []) ≡ replicate printed test_line
      → failures s.sender_out ≡ []
      → Turn i waiting printed s
  Turn-line i waiting printed s line e r m f =
      let (taken, errors) = take_errors s.receiver_errors in
      let out = (line ∷ []) ++ error_line taken in
      (
        record s {
          bus = (receiver.recv i s.bus).2;
          receiver_errors = errors;
          receiver_out = s.receiver_out ++ out;
        },
        ap (λ r. got sender receiver i r s) (recv_round-line i s.bus s.receiver_errors line e),
        (r, messages-line s.receiver_out line taken ∙ m, f),
      )

  pub Turn-nothing :
      (i : ℤ) (printed : ℕ) (s : Boards W) → Printed i 0 printed s → Turn i 0 printed s
  Turn-nothing i printed s (e, m, f) =
      let (none_left, idle) = empties i recv_filter s.bus e in
      Turn-line i 0 printed s nothing (ap (λ b. recv_line b (receiver.recv i s.bus).1) none_left)
        idle (append-nil (messages s.receiver_out) ∙ m) f

  pub Turn-message :
      (i : ℤ) (waiting printed : ℕ) (s : Boards W)
      → Printed i (suc waiting) printed s
      → Turn i waiting (suc printed) s
  Turn-message i waiting printed s (e, m, f) =
      let (fine, it, rest) = receives test_msg i recv_filter (replicate waiting test_msg) s.bus e in
      Turn-line i waiting (suc printed) s test_line
        (ap (λ b. recv_line b (receiver.recv i s.bus).1) fine ∙ ap (recv_line true) it) rest
        (ap (λ l. l ++ (test_line ∷ [])) m ∙ replicate-snoc printed test_line) f

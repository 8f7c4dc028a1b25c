-- ===== src/Can/ModesTests.antt =====
-- A bus between two boards with its theorem, and a run with connected pins.
use testsystem.Prelude.{
  ◌≡◌, refl, sym, subst, Bool, true, false, not, Option, none, some, List, [], ◌∷◌, ◌++◌,
  if◌then◌else◌,
}
use testsystem.Prelude.Int.{ℤ, pos, is_negative}
use testsystem.Prelude.Task.{done, Ensures, is_zero}
use testsystem.Flexcan.{CanMsg, CanFilter, Can}
use testsystem.Flexcan.Bus.{accepts}
use testsystem.Can.Modes.{test_msg, Pins, toggle_round, toggle_rounds, toggle_task}
use testsystem.Can.Link.{
  Wire, wire, Linked, Step, send_turn, recv_turn, sender_error, receiver_error, run_boards,
}
use testsystem.Can.Link.Delivery.{AllPrinted, start_boards, fresh, boards-AllPrinted}

-- A bus between two boards: the state is the bus itself.
abbrev bus_up : Wire → ℤ × Wire
bus_up s = (pos 0, record s { node = record s.node { is_up = true } })

abbrev bus_recv : Wire → List CanMsg → ℤ × CanMsg × Wire
bus_recv s [] = (pos 1, test_msg, s)
bus_recv s (m ∷ ms) = (pos 0, m, record s { node = record s.node { arrived = ms } })

abbrev bus_sends : CanMsg → Wire → Option (ℤ × CanFilter) → Wire
bus_sends m s none = s
bus_sends m s (some (i, f)) =
    if accepts f m.id
    then record s { node = record s.node { arrived = s.node.arrived ++ (m ∷ []) } }
    else s

abbrev sender : Can Wire
sender = record {
  up = λ s. (pos 0, record s { sender_up = true });
  register_filter = λ f s. (pos 0, s);
  send = λ m s. (pos 0, bus_sends m s s.node.filter);
  recv = λ i s. (pos 1, test_msg, s);
}

abbrev receiver : Can Wire
receiver = record {
  up = bus_up;
  register_filter = λ f s. (pos 3, record s { node = record s.node { filter = some (pos 3, f) } });
  send = λ m s. (pos 1, s);
  recv = λ i s. bus_recv s s.node.arrived;
}

arrives :
    (m : CanMsg) (i : ℤ) (f : CanFilter) (ms : List CanMsg) (b : Bool)
    → (if b then wire true true (some (i, f)) (ms ++ (m ∷ [])) else wire true true (some (i, f)) ms)
      ≡ wire true true (some (i, f)) (if b then ms ++ (m ∷ []) else ms)
arrives m i f ms true = refl
arrives m i f ms false = refl

abbrev linked : Linked sender receiver
linked = record {
  view = λ s. s;
  sender_ups = λ b f ms w e.
      subst (λ w. (is_zero (sender.up w).0 ≡ true) × ((sender.up w).1 ≡ wire true b f ms)) (sym e)
        (refl, refl);
  receiver_ups = λ b f ms w e.
      subst (λ w. (is_zero (receiver.up w).0 ≡ true) × ((receiver.up w).1 ≡ wire b true f ms))
        (sym e) (refl, refl);
  registers = λ b f w e.
      subst
        (λ w.
          (is_negative (receiver.register_filter f w).0 ≡ false)
          × ((receiver.register_filter f w).1
              ≡ wire b true (some ((receiver.register_filter f w).0, f)) []))
        (sym e) (refl, refl);
  sends = λ m i f ms w e.
      subst
        (λ w.
          (is_negative (sender.send m w).0 ≡ false)
          × ((sender.send m w).1
              ≡ wire true true (some (i, f)) (if accepts f m.id then ms ++ (m ∷ []) else ms)))
        (sym e) (refl, arrives m i f ms (accepts f m.id));
  receives = λ m i f ms w e.
      subst
        (λ w.
          (is_zero (receiver.recv i w).0 ≡ true)
          × ((receiver.recv i w).1 ≡ m)
          × ((receiver.recv i w).2 ≡ wire true true (some (i, f)) ms))
        (sym e) (refl, refl, refl);
  empties = λ i f w e.
      subst
        (λ w.
          (is_zero (receiver.recv i w).0 ≡ false)
          × ((receiver.recv i w).2 ≡ wire true true (some (i, f)) []))
        (sym e) (refl, refl);
}

-- Two rounds of the sender, with errors in between.
abbrev steps : List Step
steps = recv_turn ∷ send_turn ∷ receiver_error 1 2 ∷ recv_turn ∷ sender_error 4 0 ∷ send_turn ∷ []

boards-AllPrinted_example :
    Ensures (start_boards sender receiver linked (wire false false none [])) (λ i w'.
      AllPrinted sender receiver linked 2 (
        run_boards sender receiver i
          (steps ++ (recv_turn ∷ recv_turn ∷ []))
          (fresh sender receiver linked w')))
boards-AllPrinted_example =
    boards-AllPrinted sender receiver linked steps (wire false false none []) refl

-- The level of the connected pins.
abbrev connected : Pins Bool
connected = record { set_tx = λ b. true; toggle_tx = not; rx_value = λ b. b }

three_toggles : toggle_task connected 3 true true true ≡ done false false
unfolding toggle_task toggle_rounds toggle_round
three_toggles = refl

-- ===== src/Flexcan/Dcan.antt =====
-- `can_task` of src/am57xx/dcan.c: one message is sent, and what is received is printed.
use testsystem.Prelude.{
  ℕ, zero, suc, ◌+◌, ◌^◌, ◌≡◌, refl, ap, ◌∙◌, true, Option, none, some, List, [], ◌∷◌, ◌++◌,
  if◌then◌else◌, replicate,
}
use testsystem.Prelude.Int.{ℤ, is_negative}
use testsystem.Prelude.Task.{
  done, asserted, Task, ◌>>=◌, ◌>>◌, pure, is_zero, checked, checked_result, Ensures,
  Ensures-and_then, checked-Ensures, checked_result-Ensures,
}
use testsystem.Flexcan.{CanMsg, CanFilter, Can}
use testsystem.Flexcan.Bus.{Node, Echoes}

-- The id has the flag CAN_EFF_FLAG of an extended id.
abbrev pub can_eff_flag : ℕ
can_eff_flag = 2 ^ 31

abbrev pub msg_send : CanMsg
msg_send = record {
  id = 0x801 + can_eff_flag;
  length = 8;
  bytes = 4 ∷ 20 ∷ 69 ∷ 66 ∷ 21 ∷ 100 ∷ 13 ∷ 37 ∷ [];
}

abbrev pub dcan_filter : CanFilter
dcan_filter = record { id = msg_send.id; mask = 0x1FFFFFFF }

module _ {W : Type 0} (can : Can W) where
  abbrev pub dcan_register : Task W ℤ
  dcan_register w =
      let (ret, w') = can.register_filter dcan_filter w in
      if is_negative ret then asserted else done ret w'

  -- Up to the first print: the id of the filter, and the message that is printed.
  unfoldable pub dcan_exchange : Task W (ℤ × CanMsg)
  dcan_exchange = do
    filter_id ← dcan_register
    λ w. checked (can.send msg_send w)
    msg_recv ← λ w. checked_result (can.recv filter_id w)
    pure (filter_id, msg_recv)

  -- A round of the endless loop prints a message, or that it has received nothing.
  unfoldable pub dcan_round : ℤ → W → Option CanMsg × W
  dcan_round filter_id w =
      let (ret, msg_recv, w') = can.recv filter_id w in
      (if is_zero ret then some msg_recv else none, w')

  unfoldable pub dcan_rounds : ℕ → ℤ → W → List (Option CanMsg)
  dcan_rounds zero filter_id w = []
  dcan_rounds (suc n) filter_id w =
      let (printed, w') = dcan_round filter_id w in printed ∷ dcan_rounds n filter_id w'

  module _ (echoes : Echoes can) where
    open echoes use {view, registers, sends, receives, empties}

    rounds-nothing :
        (n : ℕ) (i : ℤ) (w : W) → (view w).arrived ≡ [] → dcan_rounds n i w ≡ replicate n none
    unfolding dcan_rounds dcan_round
    rounds-nothing zero i w e = refl
    rounds-nothing (suc n) i w e =
        let r = empties i w e in
        simp (r.0, rounds-nothing n i (can.recv i w).2 (ap (λ x. x.arrived) r.1 ∙ e)) refl

    abbrev listening : ℤ → Node
    listening i = record { is_up = true; filter = some (i, dcan_filter); arrived = [] }

    register-Ensures :
        (w : W)
        → view w ≡ record { is_up = true; filter = none; arrived = [] }
        → Ensures (dcan_register w) (λ i w'. view w' ≡ listening i)
    register-Ensures w e =
        let r = registers dcan_filter w (ap (λ x. x.filter) e) in
        (
          (can.register_filter dcan_filter w).0,
          (can.register_filter dcan_filter w).1,
          simp r.0 refl,
          r.1
              ∙ ap
                  (λ (x : Node). record x {
                    filter = some ((can.register_filter dcan_filter w).0, dcan_filter);
                  })
                  e,
        )

    -- On a bus that sends every message back, the task prints its own message without a failed
    -- assertion, and in every round behind that it receives nothing.
    pub dcan_exchange-once :
        (n : ℕ) (w : W)
        → view w ≡ record { is_up = true; filter = none; arrived = [] }
        → Ensures
            (dcan_exchange w)
            (λ (i, m) w'. (m ≡ msg_send) × (dcan_rounds n i w' ≡ replicate n none))
    unfolding dcan_exchange
    dcan_exchange-once n w e =
        let Post = λ (a : ℤ × CanMsg) (w' : W).
          (a.1 ≡ msg_send) × (dcan_rounds n a.0 w' ≡ replicate n none) in
        Ensures-and_then _ _ Post (register-Ensures w e) λ i w1 e1.
          let s = sends msg_send i dcan_filter w1 (ap (λ x. x.is_up) e1) (ap (λ x. x.filter) e1) in
          Ensures-and_then _ _ Post
            (checked-Ensures (can.send msg_send w1)
              (λ _ w'. view w' ≡ record (listening i) { arrived = msg_send ∷ [] }) s.0
              (s.1 ∙ ap (λ (x : Node). record x { arrived = x.arrived ++ (msg_send ∷ []) }) e1))
            λ _ w2 e2.
              let r =
                receives msg_send [] i dcan_filter w2 (ap (λ x. x.is_up) e2) (ap (λ x. x.filter) e2)
                  (ap (λ x. x.arrived) e2) in
              Ensures-and_then _ _ Post
                (checked_result-Ensures (can.recv i w2)
                  (λ m w'. (m ≡ msg_send) × ((view w').arrived ≡ [])) r.0
                  (r.1, ap (λ x. x.arrived) r.2))
                λ m w3 e3. ((i, m), w3, refl, (e3.0, rounds-nothing n i w3 e3.1))

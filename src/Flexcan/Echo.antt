-- ===== src/Flexcan/Echo.antt =====
-- The echo test on a bus that sends every message back, and what a round of it checks.
use testsystem.Prelude.{
  ℕ, zero, suc, ◌≡◌, ◌≢◌, ◌↔◌, refl, ap, ◌∙◌, Bool, true, false, none, some, List, [], ◌∷◌, ◌++◌,
  arith, ◌==◌, ==_iff,
}
use testsystem.Prelude.Int.{ℤ, pos, negsuc, is_negative}
use testsystem.Prelude.Task.{
  done, asserted, ◌>>◌, assert_then_iff, assert, Ensures, Ensures-and_then, checked-Ensures,
  checked_result-Ensures,
}
use testsystem.Flexcan.{
  CanMsg, Can, msg, filter, compare_data, check_msg, is_minus_one, can_up, can_register_filter,
  echo_round, echo_rounds, kv4x_echo_task, s32k_echo_task,
}
use testsystem.Flexcan.Bus.{Node, Echoes}

is_minus_one-positive : (ret : ℤ) → is_negative ret ≡ false → is_minus_one ret ≡ false
is_minus_one-positive (pos n) e = refl
is_minus_one-positive (negsuc n) e = absurd (ground (arith, e))

check_msg-msg : {W : Type 0} (w : W) → check_msg msg w ≡ done tt w
unfolding check_msg compare_data
check_msg-msg w = refl

compare_data_iff :
    {W : Type 0} (xs ys : List ℕ) (w : W)
    → (compare_data xs ys w ≡ done tt w) ↔ ((rest : List ℕ) × (xs ≡ ys ++ rest))
unfolding compare_data
compare_data_iff xs [] w = (λ _. (xs, refl), λ _. refl)
compare_data_iff [] (y ∷ ys) w =
    (λ e. absurd (ground (arith, e)), λ (rest, e). absurd (ground (arith, e)))
compare_data_iff (x ∷ xs) (y ∷ ys) w =
    let head =
      assert_then_iff (x == y) (compare_data xs ys) w (done tt w) (λ e. ground (arith, e)) in
    let tail = compare_data_iff xs ys w in
    (
      λ e. (
        (tail.0 (head.0 e).1).0,
        ap (λ z. z ∷ xs) ((==_iff x y).0 (head.0 e).0) ∙ ap (λ zs. y ∷ zs) (tail.0 (head.0 e).1).1,
      ),
      λ p. head.1 ((==_iff x y).1 (ground (arith, p.1)), tail.1 (p.0, ground (arith, p.1))),
    )

-- A message passes the checks of the echo test exactly if its id, its length and its first eight
-- bytes are those of the message that was sent.
pub check_msg_iff :
    {W : Type 0} (m : CanMsg) (w : W)
    → (check_msg m w ≡ done tt w)
      ↔ ((m.id ≡ 0x123) × (m.length ≡ 8) × ((rest : List ℕ) × (m.bytes ≡ msg.bytes ++ rest)))
unfolding check_msg
check_msg_iff m w =
    let end : done tt w ≢ asserted = λ e. ground (arith, e) in
    let compares = compare_data m.bytes msg.bytes in
    let ids =
      assert_then_iff (m.id == msg.id) (assert (m.length == msg.length) >> compares) w (done tt w)
        end in
    let lengths = assert_then_iff (m.length == msg.length) compares w (done tt w) end in
    let bytes = compare_data_iff m.bytes msg.bytes w in
    (
      λ e. (
        (==_iff m.id msg.id).0 (ids.0 e).0,
        (==_iff m.length msg.length).0 (lengths.0 (ids.0 e).1).0,
        bytes.0 (lengths.0 (ids.0 e).1).1,
      ),
      λ (i, l, b).
          ids.1 ((==_iff m.id msg.id).1 i, lengths.1 ((==_iff m.length msg.length).1 l, bytes.1 b)),
    )

module _ {W : Type 0} (can : Can W) (echoes : Echoes can) where
  open echoes use {view, ups, registers, sends, receives}

  -- Up, with the filter, and nothing left to receive.
  abbrev listening : ℤ → Node
  listening i = record { is_up = true; filter = some (i, filter); arrived = [] }

  echo_round-Ensures :
      (i : ℤ) (w : W)
      → view w ≡ listening i
      → Ensures (echo_round can i w) (λ _ w'. view w' ≡ listening i)
  unfolding echo_round
  echo_round-Ensures i w e =
      let Post = λ (a : Unit {0}) (w' : W). view w' ≡ listening i in
      let s = sends msg i filter w (ap (λ x. x.is_up) e) (ap (λ x. x.filter) e) in
      Ensures-and_then _ _ Post
        (checked-Ensures (can.send msg w)
          (λ _ w'. view w' ≡ record (listening i) { arrived = msg ∷ [] }) s.0
          (s.1 ∙ ap (λ (x : Node). record x { arrived = x.arrived ++ (msg ∷ []) }) e))
        λ _ w1 e1.
          let r =
            receives msg [] i filter w1 (ap (λ x. x.is_up) e1) (ap (λ x. x.filter) e1)
              (ap (λ x. x.arrived) e1) in
          Ensures-and_then _ _ Post
            (checked_result-Ensures (can.recv i w1) (λ m w'. (m ≡ msg) × (view w' ≡ listening i))
              r.0 (r.1, r.2 ∙ ap (λ (x : Node). record x { arrived = [] }) e1))
            λ m w2 e2. (tt, w2, ap (λ m. check_msg m w2) e2.0 ∙ check_msg-msg w2, e2.1)

  echo_rounds-Ensures :
      (n : ℕ) (i : ℤ) (w : W)
      → view w ≡ listening i
      → Ensures (echo_rounds can n i w) (λ _ w'. view w' ≡ listening i)
  unfolding echo_rounds
  echo_rounds-Ensures zero i w e = (tt, w, refl, e)
  echo_rounds-Ensures (suc n) i w e =
      Ensures-and_then _ _ (λ _ w'. view w' ≡ listening i) (echo_round-Ensures i w e)
        λ _ w1 e1. echo_rounds-Ensures n i w1 e1

  rounds_from :
      (n : ℕ) (i : ℤ) (w : W)
      → view w ≡ listening i
      → Ensures (echo_rounds can n i w) (λ _ w'. (view w').arrived ≡ [])
  rounds_from n i w e =
      let (a, w', d, e') = echo_rounds-Ensures n i w e in (a, w', d, ap (λ x. x.arrived) e')

  abbrev fresh : Node
  fresh = record { is_up = false; filter = none; arrived = [] }

  register-Ensures :
      (w : W) (up : Bool)
      → view w ≡ record fresh { is_up = up }
      → Ensures (can_register_filter can w) (λ i w'. view w' ≡ record (listening i) { is_up = up })
  register-Ensures w up e =
      let r = registers filter w (ap (λ x. x.filter) e) in
      (
        (can.register_filter filter w).0,
        (can.register_filter filter w).1,
        simp (is_minus_one-positive _ r.0) refl,
        r.1
            ∙ ap
                (λ (x : Node). record x {
                  filter = some ((can.register_filter filter w).0, filter);
                })
                e,
      )

  up-Ensures :
      (w : W) (k : Node)
      → view w ≡ k
      → Ensures (can_up can w) (λ _ w'. view w' ≡ record k { is_up = true })
  up-Ensures w k e =
      let r = ups w in
      checked-Ensures (can.up w) _ r.0 (r.1 ∙ ap (λ (x : Node). record x { is_up = true }) e)

  -- On a bus that sends every message back, the echo tests of both boards, which start the
  -- controller and register their filter in different orders, run any number of rounds without a
  -- failed assertion, and leave no message behind.
  pub echo_tasks-Ensures :
      (n : ℕ) (w : W)
      → view w ≡ record { is_up = false; filter = none; arrived = [] }
      → Ensures (kv4x_echo_task can n w) (λ _ w'. (view w').arrived ≡ [])
        × Ensures (s32k_echo_task can n w) (λ _ w'. (view w').arrived ≡ [])
  unfolding kv4x_echo_task s32k_echo_task
  echo_tasks-Ensures n w e =
      let Post = λ (a : Unit {0}) (w' : W). (view w').arrived ≡ [] in
      (
        Ensures-and_then _ _ Post (up-Ensures w fresh e) λ _ w1 e1.
            Ensures-and_then _ _ Post (register-Ensures w1 true e1)
              λ i w2 e2. rounds_from n i w2 e2,
        Ensures-and_then _ _ Post (register-Ensures w false e) λ i w1 e1.
            Ensures-and_then _ _ Post (up-Ensures w1 _ e1) λ _ w2 e2. rounds_from n i w2 e2,
      )

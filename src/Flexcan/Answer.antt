-- ===== src/Flexcan/Answer.antt =====
-- The answering tasks, and the ids of their answers.
use testsystem.Prelude.{
  ℕ, ◌+◌, ◌-◌, ◌/◌, ◌%◌, ◌^◌, ◌≡◌, ◌<◌, refl, sym, ap, ◌∙◌, subst, true, false, arith,
  if◌then◌else◌, Bool-cases, inl, inr, some, List, [], ◌∷◌, ◌++◌, length, append_assoc, append-nil,
}
use testsystem.Prelude.Int.{ℤ}
use testsystem.Prelude.Task.{Ensures, Ensures-and_then, checked-Ensures, checked_result-Ensures}
use testsystem.Flexcan.{CanMsg, Can, filter, answer_round, answer_rounds, kv4x_answer, s32k_answer}
use testsystem.Flexcan.Bus.{Node, Echoes, Records, accepts}

-- The bit of the id in which an answer differs.
abbrev bit_8 : ℕ → ℕ
bit_8 id = id / 2 / 2 / 2 / 2 / 2 / 2 / 2 / 2 % 2

accepts-bit_8 : (id : ℕ) → accepts filter id ≡ true → bit_8 id ≡ 1
accepts-bit_8 id e = ground (arith, e)

not_accepted : (id : ℕ) → bit_8 id ≡ 0 → accepts filter id ≡ false
not_accepted id z = elim (Bool-cases (accepts filter id)) [
  | inl e ↦ absurd (omega (arith, accepts-bit_8 id e, z))
  | inr e ↦ e
]

kv4x_answer-bit_8 : (id : ℕ) → id < 2 ^ 32 → bit_8 id ≡ 1 → bit_8 (kv4x_answer id) ≡ 0
kv4x_answer-bit_8 id h e = omega (arith, h, e)

s32k_answer-bit_8 : (id : ℕ) → id < 2 ^ 32 → bit_8 id ≡ 1 → bit_8 (s32k_answer id) ≡ 0
s32k_answer-bit_8 id h e = omega (arith, h, e)

kv4x_answer-accepts :
    (id : ℕ) → id < 2 ^ 32 → accepts filter id ≡ true → accepts filter (kv4x_answer id) ≡ false
kv4x_answer-accepts id h e = not_accepted _ (kv4x_answer-bit_8 id h (accepts-bit_8 id e))

s32k_answer-accepts :
    (id : ℕ) → id < 2 ^ 32 → accepts filter id ≡ true → accepts filter (s32k_answer id) ≡ false
s32k_answer-accepts id h e = not_accepted _ (s32k_answer-bit_8 id h (accepts-bit_8 id e))

-- Messages with ids of 32 bits that pass the filter.
abbrev pub Accepted : List CanMsg → Type 0
Accepted [] = Unit
Accepted (m ∷ ms) = (m.id < 2 ^ 32) × (accepts filter m.id ≡ true) × Accepted ms

-- The answers to some messages.
abbrev pub answers : (ℕ → ℕ) → List CanMsg → List CanMsg
answers answer [] = []
answers answer (m ∷ ms) = record m { id = answer m.id } ∷ answers answer ms

answers-kv4x :
    (ms : List CanMsg) → Accepted ms → answers kv4x_answer ms ≡ answers (λ id. id - 0x100) ms
answers-kv4x [] h = refl
answers-kv4x (m ∷ ms) (bound, passes, h) =
    let bit = accepts-bit_8 m.id passes in
    let same : kv4x_answer m.id ≡ m.id - 0x100 = omega (arith, bound, bit) in
    ap (λ id. record m { id = id } ∷ answers kv4x_answer ms) same
    ∙ ap (λ l. record m { id = m.id - 0x100 } ∷ l) (answers-kv4x ms h)

module _ {W : Type 0} (can : Can W) (echoes : Echoes can) (records : Records can) where
  open echoes use {view, sends, receives}
  open records use {sent, sends_out, keeps_sent}

  abbrev holding : ℤ → List CanMsg → Node
  holding i ms = record { is_up = true; filter = some (i, filter); arrived = ms }

  -- These messages wait, and those were sent.
  abbrev Stands : ℤ → List CanMsg → List CanMsg → W → Type 0
  Stands i ms out w = (view w ≡ holding i ms) × (sent w ≡ out)

  module _ (answer : ℕ → ℕ)
      (refused : (id : ℕ)
        → id < 2 ^ 32
        → accepts filter id ≡ true
        → accepts filter (answer id) ≡ false) where
    answer_round-Ensures :
        (i : ℤ) (m : CanMsg) (ms out : List CanMsg) (w : W)
        → Stands i (m ∷ ms) out w
        → accepts filter (answer m.id) ≡ false
        → Ensures
            (answer_round can answer i w)
            (λ _ w'. Stands i ms (out ++ (record m { id = answer m.id } ∷ [])) w')
    unfolding answer_round
    answer_round-Ensures i m ms out w (e, o) no_echo =
        let reply = λ (x : CanMsg). record x { id = answer x.id } in
        let Post = λ (a : Unit {0}) (w' : W). Stands i ms (out ++ (reply m ∷ [])) w' in
        let r =
          receives m ms i filter w (ap (λ x. x.is_up) e) (ap (λ x. x.filter) e)
            (ap (λ x. x.arrived) e) in
        Ensures-and_then _ _ Post
          (checked_result-Ensures (can.recv i w) (λ got w'. (got ≡ m) × Stands i ms out w') r.0
            (r.1, (r.2 ∙ ap (λ (x : Node). record x { arrived = ms }) e, keeps_sent i w ∙ o)))
          λ got w1 (same, (e1, o1)).
            let s = sends (reply got) i filter w1 (ap (λ x. x.is_up) e1) (ap (λ x. x.filter) e1) in
            checked-Ensures (can.send (reply got) w1) Post s.0 (
              s.1
                  ∙ ap
                      (λ b. record (view w1) {
                        arrived =
                            if b then (view w1).arrived ++ (reply got ∷ []) else (view w1).arrived;
                      })
                      (ap (λ (x : CanMsg). accepts filter (answer x.id)) same ∙ no_echo)
                  ∙ e1,
              sends_out (reply got) w1 s.0
                  ∙ ap (λ l. l ++ (reply got ∷ [])) o1
                  ∙ ap (λ x. out ++ (reply x ∷ [])) same,
            )

    answer_rounds-Ensures :
        (ms out : List CanMsg) (i : ℤ) (w : W)
        → Stands i ms out w
        → Accepted ms
        → Ensures
            (answer_rounds can answer (length ms) i w)
            (λ _ w'. Stands i [] (out ++ answers answer ms) w')
    unfolding answer_rounds
    answer_rounds-Ensures [] out i w (e, o) h = (tt, w, refl, (e, o ∙ sym (append-nil out)))
    answer_rounds-Ensures (m ∷ ms) out i w e (bound, passes, h) =
        let reply : CanMsg = record m { id = answer m.id } in
        Ensures-and_then _ _ (λ _ w'. Stands i [] (out ++ answers answer (m ∷ ms)) w')
          (answer_round-Ensures i m ms out w e (refused m.id bound passes))
          λ _ w1 e1.
            subst
              (λ l. Ensures (answer_rounds can answer (length ms) i w1) (λ _ w'. Stands i [] l w'))
              (append_assoc out (reply ∷ []) (answers answer ms))
              (answer_rounds-Ensures ms (out ++ (reply ∷ [])) i w1 e1 h)

  -- On a bus that sends every message back, the controller up, with the filter of the test and some
  -- messages whose ids have 32 bits and pass it: as many rounds of the answering tasks of either
  -- board fail no assertion and send exactly one answer to each of the messages, in their order, the
  -- message with its id lowered by 0x100 on the KV4x and raised by 0x100 on the S32K, on 32 bits,
  -- and none of the answers arrives as a message again.
  pub answer_rounds-once :
      (ms : List CanMsg) (i : ℤ) (w : W)
      → view w ≡ record { is_up = true; filter = some (i, filter); arrived = ms }
      → Accepted ms
      → Ensures
          (answer_rounds can kv4x_answer (length ms) i w)
          (λ _ w'. ((view w').arrived ≡ []) × (sent w' ≡ sent w ++ answers (λ id. id - 0x100) ms))
        × Ensures (answer_rounds can s32k_answer (length ms) i w) (λ _ w'.
          ((view w').arrived ≡ []) × (sent w' ≡ sent w ++ answers (λ id. (id + 0x100) % 2 ^ 32) ms))
  answer_rounds-once ms i w e h =
      let (a, v, d, (p, o)) =
        answer_rounds-Ensures kv4x_answer kv4x_answer-accepts ms (sent w) i w (e, refl) h in
      let (b, u, q, (r, l)) =
        answer_rounds-Ensures s32k_answer s32k_answer-accepts ms (sent w) i w (e, refl) h in
      (
        (a, v, d, (ap (λ x. x.arrived) p, o ∙ ap (λ l. sent w ++ l) (answers-kv4x ms h))),
        (b, u, q, (ap (λ x. x.arrived) r, l)),
      )

-- ===== src/BufferTest/Safe.antt =====
-- Which tasks `bufferInit` and `bufferInit2` create, and with which buffers.
use testsystem.Prelude.{
  ℕ, ◌≡◌, ◌≢◌, ◌↔◌, refl, sym, ◌∙◌, Bool, true, false, Bool-cases, inl, inr, List, [], ◌∷◌, arith,
  ◌==◌,
}
use testsystem.Prelude.Task.{Outcome, done, asserted, Task, ◌>>◌, and_then, Ensures}
use testsystem.Prelude.Calls.{Answers, get_checked, get_checked-next, note, when}
use testsystem.BufferTest.Start.{
  buffer_1, buffer_2, buffer_3, buffer_4, irq, tty, Call, create_tester, Config, buffer1, buffer2,
  buffer3, buffer4, buffer_rx, buffer_tx, init_self, init_uart, init_buffers, init_buffers_2,
  IsSafe, needed, AllFound,
}

module _ (a : Answers Call) where
  uart-IsSafe :
      (irq_test tty_test : Bool) (calls : List Call)
      → a.pointer buffer_rx ≢ 0
      → a.pointer buffer_tx ≢ 0
      → IsSafe a calls
      → Ensures
          ((when irq_test (note (create_tester irq)) >> when tty_test (note (create_tester tty)))
            (buffer_tx ∷ buffer_rx ∷ calls))
          (λ _ calls'. IsSafe a calls')
  uart-IsSafe false false calls rx tx h = (tt, _, refl, h)
  uart-IsSafe false true calls rx tx h = (tt, _, refl, (((tx, inl refl), tt), h))
  uart-IsSafe true false calls rx tx h =
      (tt, _, refl, (((rx, inr (inl refl)), ((tx, inl refl), tt)), h))
  uart-IsSafe true true calls rx tx h =
      (tt, _, refl, (((tx, inr (inl refl)), tt), (((rx, inr (inl refl)), ((tx, inl refl), tt)), h)))

  uart_then :
      (config : Config) (calls : List Call)
      → a.pointer buffer_rx ≢ 0
      → a.pointer buffer_tx ≢ 0
      → IsSafe a calls
      → Ensures (init_uart a config calls) (λ _ calls'. IsSafe a calls')
  unfolding init_uart
  uart_then config calls rx tx h = get_checked-next a _ buffer_rx calls (ground (arith, rx)) (
      get_checked-next a _ buffer_tx (buffer_rx ∷ calls) (ground (arith, tx))
        (uart-IsSafe config.irq_test config.tty_test calls rx tx h))

  -- A tested call of a start that ends has found its pointer, and the rest ends, too.
  get_checked-ends :
      (k : ℕ → List Call → Outcome (List Call) (Unit {0})) (c : Call) (calls calls' : List Call)
      → and_then (get_checked a c calls) k ≡ done tt calls'
      → (a.pointer c ≢ 0) × (k (a.pointer c) (c ∷ calls) ≡ done tt calls')
  get_checked-ends k c calls calls' e = elim (Bool-cases (a.pointer c == 0)) [
    | inl null ↦
        (let stops : and_then (get_checked a c calls) k ≡ asserted = simp null refl in
          absurd (cc (sym stops ∙ e)))
    | inr found ↦
        (let goes : and_then (get_checked a c calls) k ≡ k (a.pointer c) (c ∷ calls) =
            simp found refl in
          (ground (arith, found), sym goes ∙ e))
  ]

  -- The same of the first two buffers, with whatever follows them.
  self-ends :
      (k : Task (List Call) (Unit {0})) (calls : List Call)
      → and_then (init_self a []) (λ _. k) ≡ done tt calls
      → (a.pointer buffer1 ≢ 0)
        × (a.pointer buffer2 ≢ 0)
        × (k (create_tester buffer_2 ∷ create_tester buffer_1 ∷ buffer2 ∷ buffer1 ∷ [])
            ≡ done tt calls)
  unfolding init_self
  self-ends k calls e = elim (Bool-cases (a.pointer buffer1 == 0)) [
    | inl null ↦
        (let stops : and_then (init_self a []) (λ _. k) ≡ asserted = simp null refl in
          absurd (cc (sym stops ∙ e)))
    | inr one ↦ elim (Bool-cases (a.pointer buffer2 == 0)) [
      | inl null ↦
          (let stops : and_then (init_self a []) (λ _. k) ≡ asserted = simp (one, null) refl in
            absurd (cc (sym stops ∙ e)))
      | inr two ↦
          (let goes : and_then (init_self a []) (λ _. k)
                ≡ k (create_tester buffer_2 ∷ create_tester buffer_1 ∷ buffer2 ∷ buffer1 ∷ []) =
              simp (one, two) refl in
            (ground (arith, one), ground (arith, two), sym goes ∙ e))
    ]
  ]

  uart-found :
      (config : Config) (calls calls' : List Call)
      → init_uart a config calls ≡ done tt calls'
      → (a.pointer buffer_rx ≢ 0) × (a.pointer buffer_tx ≢ 0)
  unfolding init_uart
  uart-found config calls calls' e =
      let (rx, f) = get_checked-ends _ buffer_rx calls calls' e in
      let (tx, g) = get_checked-ends _ buffer_tx (buffer_rx ∷ calls) calls' f in (rx, tx)

  with_self_iff :
      (config : Config) (b : Bool)
      → Ensures ((when b (init_self a) >> init_uart a config) []) (λ _ calls. IsSafe a calls)
        ↔ AllFound a (needed b)
  unfolding init_self
  with_self_iff config false = (
    (λ (_, calls, e, _). let (rx, tx) = uart-found config [] calls e in (rx, (tx, tt))),
    (λ (rx, (tx, _)). uart_then config [] rx tx tt),
  )
  with_self_iff config true = (
    (λ (_, calls, e, _).
        let (one, two, g) = self-ends (init_uart a config) calls e in
        let rest = create_tester buffer_2 ∷ create_tester buffer_1 ∷ buffer2 ∷ buffer1 ∷ [] in
        let (rx, tx) = uart-found config rest calls g in (one, (two, (rx, (tx, tt))))),
    (λ (one, (two, (rx, (tx, _)))).
        let found_1 : (a.pointer buffer1 == 0) ≡ false = ground (arith, one) in
        let found_2 : (a.pointer buffer2 == 0) ≡ false = ground (arith, two) in
        let (_, calls, f, h) =
          uart_then config
            (create_tester buffer_2 ∷ create_tester buffer_1 ∷ buffer2 ∷ buffer1 ∷ []) rx tx
            (((two, inr (inl refl)), tt), (((one, inr (inl refl)), tt), tt)) in
        (tt, calls, simp (found_1, found_2, f) refl, h)),
  )

  -- `bufferInit` comes to its end exactly if no buffer that it asks for is NULL, and then it has
  -- created every task behind the buffers that the task uses.
  pub init_buffers_iff :
      (config : Config)
      → Ensures (init_buffers a config []) (λ _ calls. IsSafe a calls)
        ↔ AllFound a (needed config.self)
  unfolding init_buffers
  init_buffers_iff config = with_self_iff config config.self

  -- `bufferInit2` always ends, and behind it the tasks are created behind the buffers that they use
  -- exactly if that was so before and no buffer of its own is NULL.
  pub init_buffers_2-IsSafe_iff :
      (calls : List Call)
      → Ensures
          (init_buffers_2 a calls)
          (λ _ calls'. IsSafe a calls' ↔ (IsSafe a calls × AllFound a (buffer3 ∷ buffer4 ∷ [])))
  unfolding init_buffers_2
  init_buffers_2-IsSafe_iff calls = (
    tt,
    create_tester buffer_4 ∷ create_tester buffer_3 ∷ buffer4 ∷ buffer3 ∷ calls,
    refl,
    (
      (λ (((four, _), _), (((three, _), _), h)). (h, (three, (four, tt)))),
      (λ (h, (three, (four, _))).
          (((four, inr (inl refl)), tt), (((three, inr (inl refl)), tt), h))),
    ),
  )

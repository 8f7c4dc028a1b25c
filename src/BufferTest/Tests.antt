-- ===== src/BufferTest/Tests.antt =====
-- A queue as the buffer, and the theorems at concrete inputs.
use testsystem.Prelude.{
  take, drop, ℕ, zero, suc, ◌≤◌, ◌<◌, ◌≡◌, ◌≢◌, ◌↔◌, refl, sym, ap, ◌∙◌, true, false, Option, none,
  some, List, [], ◌∷◌, ◌++◌, length, replicate, arith,
}
use testsystem.Prelude.Int.{ℤ, pos}
use testsystem.BufferTest.{
  Buffer, TestData, loop_start, running, finished, stopped, message, buffer3_round, buffer4_round,
  buffer1_round, received, compare_message,
}
use testsystem.BufferTest.Fifo.{Fifo}
use testsystem.BufferTest.Pair.{Pair, writes, reads, Reach, here, next, pair_start, rounds-no_error}
use testsystem.BufferTest.Irq.{
  Buffers, Round, outside, strlen, irq_round, irq_rounds, dies_ist, Answers, HasEnd,
}
use testsystem.BufferTest.Answers.{irq_rounds-next, irq_round-outside_iff}
use testsystem.BufferTest.Text.{Sends, none_yet, one_more}

abbrev take_from : {A : Type 0} → ℕ → List A → Option (ℤ × List A × List A)
take_from n [] = none
take_from n (x ∷ xs) = some (pos (length (take n (x ∷ xs))), take n (x ∷ xs), drop n (x ∷ xs))

abbrev queue : {A : Type 0} → Buffer (List A) A
queue = record { write = λ xs s. (pos 0, s ++ xs); read = take_from }

take-append :
    {A : Type 0} (n : ℕ) (front back : List A)
    → length front ≤ n
    → (length front < n → back ≡ [])
    → (take n (front ++ back) ≡ front) × (drop n (front ++ back) ≡ back)
take-append zero [] back le short = (refl, refl)
take-append zero (x ∷ front) back le short = absurd (omega (arith, le))
take-append (suc n) [] back le short =
    let e = short (omega arith) in (ap (take (suc n)) e, ap (drop (suc n)) e ∙ sym e)
take-append (suc n) (x ∷ front) back le short =
    let (f, b) = take-append n front back (omega (arith, le)) (λ lt. short (omega (arith, lt))) in
    (ap (λ xs. x ∷ xs) f, b)

take_from-append :
    {A : Type 0} (n : ℕ) (front back : List A)
    → 0 < length front
    → length front ≤ n
    → (length front < n → back ≡ [])
    → take_from n (front ++ back) ≡ some (pos (length front), front, back)
take_from-append n [] back some_left le short = absurd (omega (arith, some_left))
take_from-append n (x ∷ front) back some_left le short =
    let (f, b) = take-append n (x ∷ front) back le short in simp (f, b) refl

abbrev queue_fifo : {A : Type 0} → Fifo {A = A} queue
queue_fifo = record {
  contents = λ s. s;
  written = λ xs s e. refl;
  refused = λ xs s e. absurd (ground (arith, e));
  empty_waits = λ n s e. ap (take_from n) e;
  taken = λ n s front back e some_left le short.
      (back, ap (take_from n) e ∙ take_from-append n front back some_left le short, refl);
}

-- The writer has sent two messages and the reader has read one.
abbrev two_and_one : Pair (List TestData)
two_and_one = record {
  writer = record { i = 2; flag = true; status = running };
  reader = record { i = 1; flag = false; status = running };
  store = message false ∷ [];
}

two_and_one-reached : Reach queue queue_fifo (pair_start queue queue_fifo []) two_and_one
unfolding buffer3_round buffer4_round received compare_message
two_and_one-reached = next (next (next here (writes refl)) (writes refl)) (reads _ refl refl)

rounds-no_error_example :
    (two_and_one.reader.status ≢ stopped)
    × (two_and_one.reader.i ≤ two_and_one.writer.i)
    × (two_and_one.writer.status ≡ finished
        → buffer4_round queue two_and_one.reader two_and_one.store ≢ none)
rounds-no_error_example = rounds-no_error queue queue_fifo [] two_and_one refl two_and_one-reached

abbrev text : List ℕ
text = replicate 18 68

two_texts : Sends queue text queue_fifo [] 2 (record loop_start { i = 2 }, text ++ text)
unfolding buffer1_round
two_texts = one_more (one_more none_yet refl) refl

-- Another core that answers by a function. The state is the answer.
abbrev unread : List ℕ → Option (ℤ × List ℕ × List ℕ)
unread [] = none
unread (c ∷ cs) = some (pos (length (c ∷ cs)), c ∷ cs, [])

abbrev core : (List ℕ → List ℕ) → Buffers (List ℕ)
core reply = record { write = λ xs s. (pos 0, reply xs); read = λ n s. unread s }

unread-some :
    (xs s : List ℕ)
    → s ≡ xs
    → 0 < length xs
    → (s' : List ℕ) × (unread s ≡ some (pos (length xs), xs, s')) × (s' ≡ [])
unread-some [] s e h = absurd (omega (arith, h))
unread-some (x ∷ xs) s e h = ([], ap unread e, refl)

abbrev core_answers : (reply : List ℕ → List ℕ) → Answers (core reply) reply
core_answers reply = record {
  answer = λ s. s;
  writes = λ xs s idle. (refl, refl);
  reads = λ xs s e h few. unread-some xs s e h;
}

irq_rounds-next_example :
    (test : List ℕ) × (s : List ℕ) × (irq_rounds (core (λ xs. xs)) 1000 dies_ist []
      ≡ Round.next test s)
    × HasEnd test
    × (length test ≡ 18)
unfolding strlen
irq_rounds-next_example =
    irq_rounds-next (core (λ xs. xs)) (λ xs. xs) (core_answers (λ xs. xs)) 1000 dies_ist []
      (λ xs ended l. (ended, l)) (17, refl) refl refl

abbrev too_long : List ℕ → List ℕ
too_long xs = replicate 20 65

irq_round-outside_iff_example : (irq_round (core too_long) dies_ist [] ≡ outside) ↔ (18 < 20)
unfolding strlen
irq_round-outside_iff_example =
    irq_round-outside_iff (core too_long) too_long (core_answers too_long) dies_ist 17 [] refl refl
      (omega arith) (omega arith)

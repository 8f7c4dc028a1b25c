-- ===== src/BufferTest/Text.antt =====
-- A round of `buffer2Test` with some texts of `buffer1Test` in the buffer.
use testsystem.Prelude.{
  ℕ, zero, suc, ◌+◌, ◌*◌, ◌≤◌, ◌≡◌, ◌≢◌, refl, sym, ap, ◌∙◌, false, some, List, [], ◌++◌, arith,
  ◌==◌, if◌then◌else◌, length, length-append, append-nil, append_assoc,
}
use testsystem.Prelude.Int.{pos}
use testsystem.BufferTest.{
  Buffer, Loop, loop_start, running, stopped, buffer1_round, buffer2_round, text_rounds,
}
use testsystem.BufferTest.Fifo.{Fifo}

abbrev pub copies : ℕ → List ℕ → List ℕ
copies zero text = []
copies (suc k) text = text ++ copies k text

length-copies : (k : ℕ) (text : List ℕ) → length text ≡ 18 → length (copies k text) ≡ k * 18
length-copies zero text size = refl
length-copies (suc k) text size =
    omega (arith, length-append text (copies k text), length-copies k text size, size)

==_neither : {a b : ℕ} → a ≢ b → (a == b) ≡ false
==_neither ne = ground (arith, ne)

count_one : (k : ℕ) → (suc k * 18 == 18) ≡ (k == 0)
count_one k = ground arith

copies-snoc : (k : ℕ) (text : List ℕ) → copies k text ++ text ≡ copies (suc k) text
copies-snoc zero text = sym (append-nil text)
copies-snoc (suc k) text =
    append_assoc text (copies k text) text ∙ ap (λ xs. text ++ xs) (copies-snoc k text)

module _ {S : Type 0} (buffer : Buffer S ℕ) (text : List ℕ) (fifo : Fifo buffer) where
  open fifo use {contents, written, taken}

  -- What the round does with the length of the read.
  text_round :
      (k : ℕ) (l : Loop) {s s' : S} {chars : List ℕ}
      → length chars ≡ suc k * 18
      → buffer.read 128 s ≡ some (pos (length chars), chars, s')
      → l.i ≢ text_rounds
      → buffer2_round buffer text l s
        ≡ some
            (if k == 0 then (record l { i = l.i + 1 }, s') else (record l { status = stopped }, s'))
  unfolding buffer2_round
  text_round k l count r more = simp (r, ==_neither more, count, count_one k) refl

  -- Some rounds of `buffer1Test`, each in a task that still runs.
  pub data Sends (s : S) : ℕ → Loop × S → Type 0 where
    none_yet : Sends s 0 (loop_start, s)
    one_more :
        {k : ℕ} {r : Loop × S}
        → Sends s k r
        → r.0.status ≡ running
        → Sends s (suc k) (buffer1_round buffer text r.0 r.1)

  -- A round that leaves the task running has written the text.
  buffer1_round-writes :
      (l : Loop) (u : S)
      → (buffer1_round buffer text l u).0.status ≡ running
      → contents (buffer1_round buffer text l u).1 ≡ contents u ++ text
  unfolding buffer1_round
  buffer1_round-writes l u run = ground (arith, run, written text u)

  Sends-copies :
      {s : S} {k : ℕ} {r : Loop × S}
      → contents s ≡ []
      → Sends s k r
      → r.0.status ≡ running
      → contents r.1 ≡ copies k text
  Sends-copies e none_yet run = e
  Sends-copies e (one_more {k} {r} sent was) run =
      buffer1_round-writes r.0 r.1 run
      ∙ ap (λ xs. xs ++ text) (Sends-copies e sent was)
      ∙ copies-snoc k text

  -- `buffer1Test` has written its text of 18 characters some times to an empty buffer, without an
  -- error and 128 characters at most. While `buffer2Test` has a round left, its next round goes on if
  -- the text was written once, stops with an error if more often, and empties the buffer.
  pub buffer2_round-one_text :
      (k : ℕ) (l : Loop) (s : S) (r : Loop × S)
      → length text ≡ 18
      → contents s ≡ []
      → Sends s (suc k) r
      → r.0.status ≡ running
      → suc k * 18 ≤ 128
      → l.i ≢ text_rounds
      → (s' : S) × (buffer2_round buffer text l r.1
          ≡ some (
              if k == 0
              then (record l { i = l.i + 1 }, s')
              else (record l { status = stopped }, s')))
        × (contents s' ≡ [])
  buffer2_round-one_text k l s r size start sent run fits more =
      let count = length-copies (suc k) text size in
      let held = Sends-copies start sent run ∙ sym (append-nil (copies (suc k) text)) in
      let t =
        taken 128 r.1 (copies (suc k) text) [] held (omega (arith, count))
          (omega (arith, count, fits)) (λ _. refl) in
      (t.0, text_round k l count t.1 more, t.2)

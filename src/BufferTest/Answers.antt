-- ===== src/BufferTest/Answers.antt =====
-- The rounds of `bufferIRQTest` against another core that answers.
use testsystem.Prelude.{
  ℕ, zero, suc, ◌+◌, ◌≤◌, ◌<◌, ◌≡◌, ◌↔◌, ◌⊎◌, refl, sym, ap, ◌∙◌, Bool, true, false, Option, none,
  some, List, [], ◌∷◌, ◌++◌, arith, length, length-append, take, drop, leb, ◌==◌, if◌then◌else◌,
  Bool-cases, inl, inr,
}
use testsystem.BufferTest.Irq.{
  Buffers, next, outside, strlen, store, stored, irq_round, irq_rounds, text, Answers, HasEnd,
  IsPolite,
}

length-drop : (n : ℕ) (xs : List ℕ) → n ≤ length xs → length (drop n xs) + n ≡ length xs
length-drop zero xs h = omega arith
length-drop (suc n) [] h = absurd (omega (arith, h))
length-drop (suc n) (x ∷ xs) h = omega (arith, length-drop n xs (omega (arith, h)))

length-take_le : (n : ℕ) (xs : List ℕ) → length (take n xs) ≤ length xs
length-take_le zero xs = omega arith
length-take_le (suc n) [] = omega arith
length-take_le (suc n) (x ∷ xs) = omega (arith, length-take_le n xs)

strlen_pos : (xs : List ℕ) (n : ℕ) → strlen xs ≡ some n → 0 < length xs
unfolding strlen
strlen_pos [] n e = absurd (ground (arith, e))
strlen_pos (x ∷ xs) n e = omega arith

strlen-zero : (x : ℕ) (xs : List ℕ) → (x == 0) ≡ true → strlen (x ∷ xs) ≡ some 0
unfolding strlen
strlen-zero x xs e = simp e refl

strlen-suc :
    (x n : ℕ) (xs : List ℕ) → (x == 0) ≡ false → strlen xs ≡ some n → strlen (x ∷ xs) ≡ some (suc n)
unfolding strlen
strlen-suc x n xs e h = simp (e, h) refl

-- The end is here, or in the rest.
strlen_cases :
    (x n : ℕ) (xs : List ℕ)
    → strlen (x ∷ xs) ≡ some n
    → (((x == 0) ≡ true) × (n ≡ 0))
      ⊎ (((x == 0) ≡ false) × ((m : ℕ) × (strlen xs ≡ some m) × (n ≡ suc m)))
unfolding strlen
strlen_cases x n xs h = go (x == 0) (strlen xs) refl refl h
  where
    go :
        (b : Bool) (o : Option ℕ)
        → (x == 0) ≡ b
        → strlen xs ≡ o
        → (if b then some 0 else elim o [ none ↦ none | some m ↦ some (suc m) ]) ≡ some n
        → (((x == 0) ≡ true) × (n ≡ 0))
          ⊎ (((x == 0) ≡ false) × ((m : ℕ) × (strlen xs ≡ some m) × (n ≡ suc m)))
    go true o e f h = inl (e, ground (arith, h))
    go false none e f h = absurd (cc)
    go false (some m) e f h = inr (e, (m, f, ground (arith, h)))

strlen-append : (xs ys : List ℕ) (n : ℕ) → strlen xs ≡ some n → strlen (xs ++ ys) ≡ some n
strlen-append [] ys n e = absurd (ground (arith, strlen_pos [] n e))
strlen-append (x ∷ xs) ys n e = elim (strlen_cases x n xs e) [
  | inl (z, n0) ↦ rw n0 (strlen-zero x (xs ++ ys) z)
  | inr (z, (m, f, ns)) ↦ rw ns (strlen-suc x m (xs ++ ys) z (strlen-append xs ys m f))
]

strlen-text : (xs : List ℕ) (n : ℕ) → strlen xs ≡ some n → strlen (text n xs) ≡ some n
strlen-text [] n e = absurd (ground (arith, strlen_pos [] n e))
strlen-text (x ∷ xs) n e = elim (strlen_cases x n xs e) [
  | inl (z, n0) ↦ rw n0 (strlen-zero x [] z)
  | inr (z, (m, f, ns)) ↦
      (let longer : suc m + 1 ≡ suc (m + 1) = omega arith in
        rw ns (
          ap (λ k. strlen (take k (x ∷ xs))) longer
          ∙ strlen-suc x m (text m xs) z (strlen-text xs m f)))
]

module _ {S : Type 0} (buffers : Buffers S) (reply : List ℕ → List ℕ)
    (answers : Answers buffers reply) where
  open answers use {answer, writes, reads}

  stored-outside_iff :
      (bytes test : List ℕ) (s : S)
      → (stored buffers (store bytes test) s ≡ outside) ↔ (length test < length bytes)
  unfolding store
  stored-outside_iff bytes test s = elim (Bool-cases (leb (length bytes) (length test))) [
    | inl fits ↦
        (let kept : stored buffers (store bytes test) s
              ≡ next (bytes ++ drop (length bytes) test) s =
            simp fits refl in
          (λ o. absurd (cc (sym kept ∙ o)), λ long. absurd (ground (arith, fits, long))))
    | inr long ↦ (λ _. ground (arith, long), λ _. simp long refl)
  ]

  -- A round up to the write into the array.
  round-stored :
      (test : List ℕ) (n : ℕ) (s : S)
      → strlen test ≡ some n
      → answer s ≡ []
      → 0 < length (reply (text n test))
      → length (reply (text n test)) ≤ 128
      → (s' : S) × (irq_round buffers test s ≡ stored buffers (store (reply (text n test)) test) s')
        × (answer s' ≡ [])
  unfolding irq_round
  round-stored test n s e idle some_bytes few =
      let (sent, got) = writes (text n test) s idle in
      let (s', r, empty) =
        reads (reply (text n test)) (buffers.write (text n test) s).1 got some_bytes few in
      (s', simp (e, sent, r) refl, empty)

  -- Where the other core answers with 1 to 128 bytes, a round writes outside its array exactly if the
  -- answer is longer than the array.
  pub irq_round-outside_iff :
      (test : List ℕ) (n : ℕ) (s : S)
      → strlen test ≡ some n
      → answer s ≡ []
      → 0 < length (reply (text n test))
      → length (reply (text n test)) ≤ 128
      → (irq_round buffers test s ≡ outside) ↔ (length test < length (reply (text n test)))
  irq_round-outside_iff test n s e idle some_bytes few =
      let (s', r, empty) = round-stored test n s e idle some_bytes few in
      let (there, back) = stored-outside_iff (reply (text n test)) test s' in
      (λ o. there (sym r ∙ o), λ long. r ∙ back long)

  -- Where the other core answers each text that fits into the array with such a text, `bufferIRQTest`
  -- gets through any number of rounds without an error, a read that waits for ever or an access
  -- outside its array, which still holds a text behind them.
  pub irq_rounds-next :
      (n : ℕ) (test : List ℕ) (s : S)
      → IsPolite reply
      → HasEnd test
      → length test ≡ 18
      → answer s ≡ []
      → (test' : List ℕ) × (s' : S) × (irq_rounds buffers n test s ≡ next test' s')
        × HasEnd test'
        × (length test' ≡ 18)
  unfolding irq_rounds store
  irq_rounds-next zero test s polite ended l idle = (test, s, refl, ended, l)
  irq_rounds-next (suc n) test s polite (k, e) l idle =
      let sent = text k test in
      let ((m, f), short) =
        polite sent (k, strlen-text test k e) (omega (arith, length-take_le (k + 1) test, l)) in
      let (s', r, empty) =
        round-stored test k s e idle (strlen_pos (reply sent) m f) (omega (arith, short)) in
      let rest = drop (length (reply sent)) test in
      let fits : leb (length (reply sent)) (length test) ≡ true = ground (arith, short, l) in
      let whole : length (reply sent ++ rest) ≡ 18 = omega (
        arith,
        length-append (reply sent) rest,
        length-drop (length (reply sent)) test (omega (arith, short, l)),
        l,
      ) in
      let (test', s2, g, ended, l2) =
        irq_rounds-next n (reply sent ++ rest) s' polite (m, strlen-append (reply sent) rest m f)
          whole empty in
      (test', s2, simp (r, fits, g) refl, ended, l2)

-- ===== src/BufferTest/Irq.antt =====
-- `bufferIRQTest` of src/vf610/buffertest.c, which sends the text in its array `test` to the other
-- core and reads the answer into the same array.
-- The two buffers are a parameter; a read that waits is `none`. A character is its code.
use testsystem.Prelude.{
  ℕ, zero, suc, ◌+◌, ◌≤◌, ◌<◌, ◌≡◌, false, Option, none, some, List, [], ◌∷◌, ◌++◌, length, take,
  drop, leb, ◌==◌, if◌then◌else◌,
}
use testsystem.Prelude.Int.{ℤ, pos, is_negative}

-- `buffer_write` to `bufferTX`, and `buffer_read` from `bufferRX` with a length.
pub record Buffers (S : Type 0) : Type 0 where
  pub write : List ℕ → S → ℤ × S
  pub read : ℕ → S → Option (ℤ × List ℕ × S)

-- Behind a round: the array and the buffers, the endless loop behind an error message, a read that
-- waits, or an access outside the array.
pub data Round (S : Type 0) : Type 0 where
  next : List ℕ → S → Round S
  stopped waits outside : Round S

-- `strlen`, which reads up to the first 0; `none` is a read outside the array.
unfoldable pub strlen : List ℕ → Option ℕ
strlen [] = none
strlen (c ∷ cs) =
    let rest = strlen cs in
    if c == 0 then some 0 else elim rest [ none ↦ none | some n ↦ some (suc n) ]

-- The bytes at the start of the array take new values. `none` is a write outside.
unfoldable pub store : List ℕ → List ℕ → Option (List ℕ)
store bytes test =
    if leb (length bytes) (length test) then some (bytes ++ drop (length bytes) test) else none

module _ {S : Type 0} (buffers : Buffers S) where
  abbrev pub stored : Option (List ℕ) → S → Round S
  stored none s = outside
  stored (some test) s = next test s

  -- The parts of a round behind the read and behind the write.
  abbrev pub answered : List ℕ → Option (ℤ × List ℕ × S) → Round S
  answered test none = waits
  answered test (some (ret, bytes, s)) =
      if is_negative ret then stopped else stored (store bytes test) s

  abbrev pub sent_to_other : List ℕ → ℤ × S → Round S
  sent_to_other test (ret, s) =
      if is_negative ret then stopped else answered test (buffers.read 128 s)

  abbrev pub send : List ℕ → Option ℕ → S → Round S
  send test none s = outside
  send test (some n) s = sent_to_other test (buffers.write (take (n + 1) test) s)

  unfoldable pub irq_round : List ℕ → S → Round S
  irq_round test s = send test (strlen test) s

  abbrev pub and_next : Round S → (List ℕ → S → Round S) → Round S
  and_next (next test s) k = k test s
  and_next stopped k = stopped
  and_next waits k = waits
  and_next outside k = outside

  unfoldable pub irq_rounds : ℕ → List ℕ → S → Round S
  irq_rounds zero test s = next test s
  irq_rounds (suc n) test s = and_next (irq_round test s) (irq_rounds n)

-- "Dies ist ein Test" with its end.
abbrev pub dies_ist : List ℕ
dies_ist =
    68 ∷ 105 ∷ 101 ∷ 115 ∷ 32 ∷ 105 ∷ 115 ∷ 116 ∷ 32 ∷ 101 ∷ 105 ∷ 110 ∷ 32 ∷ 84 ∷ 101 ∷ 115 ∷ 116
    ∷ 0 ∷ []

-- What goes to the other core: the text up to its end.
abbrev pub text : ℕ → List ℕ → List ℕ
text n test = take (n + 1) test

-- The other core answers each text by `reply`, in one piece. `answer` is what it has sent and has not
-- been read yet.
pub record Answers {S : Type 0} (buffers : Buffers S) (reply : List ℕ → List ℕ) : Type 0 where
  pub answer : S → List ℕ
  pub writes :
      (xs : List ℕ) (s : S)
      → answer s ≡ []
      → (is_negative (buffers.write xs s).0 ≡ false) × (answer (buffers.write xs s).1 ≡ reply xs)
  pub reads :
      (xs : List ℕ) (s : S)
      → answer s ≡ xs
      → 0 < length xs
      → length xs ≤ 128
      → (s' : S) × (buffers.read 128 s ≡ some (pos (length xs), xs, s')) × (answer s' ≡ [])

-- The array holds a text with an end.
abbrev pub HasEnd : List ℕ → Type 0
HasEnd test = (n : ℕ) × (strlen test ≡ some n)

-- The answer to a text that fits into the array is one, too.
abbrev pub IsPolite : (List ℕ → List ℕ) → Type 0
IsPolite reply =
    (xs : List ℕ) → HasEnd xs → length xs ≤ 18 → HasEnd (reply xs) × (length (reply xs) ≤ 18)

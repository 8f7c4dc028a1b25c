-- ===== src/BufferTest/Fifo.antt =====
-- What the tests rely on: the buffer is a queue.
use testsystem.Prelude.{ℕ, ◌≤◌, ◌<◌, ◌≡◌, true, false, none, some, List, [], ◌++◌, length}
use testsystem.Prelude.Int.{pos, is_negative}
use testsystem.BufferTest.{Buffer}

-- A write that succeeds appends, one that fails changes nothing. A read waits on an empty buffer, and
-- else takes from the front as much as there is, up to the length that is asked for.
pub record Fifo {S A : Type 0} (buffer : Buffer S A) : Type 0 where
  pub contents : S → List A
  pub written :
      (xs : List A) (s : S)
      → is_negative (buffer.write xs s).0 ≡ false
      → contents (buffer.write xs s).1 ≡ contents s ++ xs
  pub refused :
      (xs : List A) (s : S)
      → is_negative (buffer.write xs s).0 ≡ true
      → contents (buffer.write xs s).1 ≡ contents s
  pub empty_waits : (n : ℕ) (s : S) → contents s ≡ [] → buffer.read n s ≡ none
  pub taken :
      (n : ℕ) (s : S) (front back : List A)
      → contents s ≡ front ++ back
      → 0 < length front
      → length front ≤ n
      → (length front < n → back ≡ [])
      → (s' : S) × (buffer.read n s ≡ some (pos (length front), front, s')) × (contents s' ≡ back)

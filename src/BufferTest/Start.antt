-- ===== src/BufferTest/Start.antt =====
-- `bufferInit` and `bufferInit2` of src/vf610/buffertest.c, which set up the buffers and create the
-- tasks of the tests, and a round of `bufferTTYTest`.
-- The HAL answers by Prelude/Calls. The sizes of the elements are those of `char` and of
-- `struct TestData`. Whether a task is created is not tested.
use testsystem.Prelude.{
  ℕ, zero, suc, ◌≡◌, ◌≢◌, ◌⊎◌, refl, sym, ap, ◌∙◌, Bool, true, false, Option, none, some, List, [],
  ◌∷◌, ◌++◌, append_assoc, append-nil, All, if◌then◌else◌,
}
use testsystem.Prelude.Int.{is_negative}
use testsystem.Prelude.Task.{Task, ◌>>◌}
use testsystem.Prelude.Calls.{Answers, get, get_checked, note, when}
use testsystem.BufferTest.{Buffer}
use testsystem.BufferTest.Fifo.{Fifo}

-- The memory of a buffer.
pub data Area : Type 0 where
  own own_2 uart_rx uart_tx : Area

pub data Tester : Type 0 where
  buffer_1 buffer_2 buffer_3 buffer_4 irq tty : Tester

-- `buffer_init` with the length, the size of an element and whether this side reads.
pub data Call : Type 0 where
  buffer_init : Area → ℕ → ℕ → Bool → Call
  create_tester : Tester → Call

-- CONFIG_BUFFERTEST_SELF, CONFIG_BUFFERTEST_IRQ and CONFIG_TTY_BUFFERTEST.
pub record Config : Type 0 where
  pub self : Bool
  pub irq_test : Bool
  pub tty_test : Bool

-- The globals `buffer1` to `buffer4`, `bufferRX` and `bufferTX`.
abbrev pub buffer1 : Call
buffer1 = buffer_init own 128 1 false

abbrev pub buffer2 : Call
buffer2 = buffer_init own 128 1 true

abbrev pub buffer3 : Call
buffer3 = buffer_init own_2 32 32 false

abbrev pub buffer4 : Call
buffer4 = buffer_init own_2 32 32 true

abbrev pub buffer_rx : Call
buffer_rx = buffer_init uart_rx 128 1 true

abbrev pub buffer_tx : Call
buffer_tx = buffer_init uart_tx 128 1 false

-- The buffers that a task uses.
abbrev pub uses : Tester → List Call
uses buffer_1 = buffer1 ∷ []
uses buffer_2 = buffer2 ∷ []
uses buffer_3 = buffer3 ∷ []
uses buffer_4 = buffer4 ∷ []
uses irq = buffer_rx ∷ buffer_tx ∷ []
uses tty = buffer_tx ∷ []

abbrev pub Among : Call → List Call → Type 0
Among c [] = ⊥
Among c (c' ∷ calls) = (c' ≡ c) ⊎ Among c calls

-- The buffers that `bufferInit` asks for.
abbrev pub needed : Bool → List Call
needed true = buffer1 ∷ buffer2 ∷ buffer_rx ∷ buffer_tx ∷ []
needed false = buffer_rx ∷ buffer_tx ∷ []

module _ (a : Answers Call) where
  -- `bufferInit`.
  unfoldable pub init_self : Task (List Call) (Unit {0})
  init_self = do
    get_checked a buffer1
    get_checked a buffer2
    note (create_tester buffer_1)
    note (create_tester buffer_2)

  unfoldable pub init_uart : Config → Task (List Call) (Unit {0})
  init_uart config = do
    get_checked a buffer_rx
    get_checked a buffer_tx
    when config.irq_test (note (create_tester irq))
    when config.tty_test (note (create_tester tty))

  unfoldable pub init_buffers : Config → Task (List Call) (Unit {0})
  init_buffers config = do when config.self init_self; init_uart config

  -- `bufferInit2`, which `buffer2Test` calls at its end.
  unfoldable pub init_buffers_2 : Task (List Call) (Unit {0})
  init_buffers_2 = do
    get a buffer3
    get a buffer4
    note (create_tester buffer_3)
    note (create_tester buffer_4)

  -- Every task is created behind the buffers that it uses, and none of these is NULL.
  abbrev pub IsSafe : List Call → Type 0
  IsSafe [] = Unit
  IsSafe (create_tester t ∷ calls) =
      All (λ c. (a.pointer c ≢ 0) × Among c calls) (uses t) × IsSafe calls
  IsSafe (buffer_init area n size reads ∷ calls) = IsSafe calls

  abbrev pub AllFound : List Call → Type 0
  AllFound cs = All (λ c. a.pointer c ≢ 0) cs

-- Rounds of `bufferTTYTest`, which sends a text without its end. `none` is the endless loop behind an
-- error message.
module _ {S : Type 0} (buffer : Buffer S ℕ) (text : List ℕ) where
  unfoldable pub tty_rounds : ℕ → S → Option S
  tty_rounds zero s = some s
  tty_rounds (suc n) s =
      let (ret, s') = buffer.write text s in
      let rest = tty_rounds n s' in if is_negative ret then none else rest

  abbrev pub copies : ℕ → List ℕ
  copies zero = []
  copies (suc n) = text ++ copies n

  -- Where the buffer takes every text, behind any number of rounds it holds a copy of the text for
  -- each round behind what it held before.
  pub tty_rounds-copies :
      (fifo : Fifo buffer) (n : ℕ) (s : S)
      → ((s : S) → is_negative (buffer.write text s).0 ≡ false)
      → (s' : S) × (tty_rounds n s ≡ some s') × (fifo.contents s' ≡ fifo.contents s ++ copies n)
  unfolding tty_rounds
  tty_rounds-copies fifo zero s fine = (s, refl, sym (append-nil (fifo.contents s)))
  tty_rounds-copies fifo (suc n) s fine =
      let (s', e, c) = tty_rounds-copies fifo n (buffer.write text s).1 fine in
      (
        s',
        simp (fine s, e) refl,
        c
            ∙ ap (λ xs. xs ++ copies n) (fifo.written text s (fine s))
            ∙ append_assoc (fifo.contents s) text (copies n),
      )

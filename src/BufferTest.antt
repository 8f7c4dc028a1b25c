-- ===== src/BufferTest.antt =====
-- The tests of a shared buffer in src/vf610/buffertest.c: `buffer3Test` writes a message in each round
-- and `buffer4Test` reads one, `buffer1Test` and `buffer2Test` do so with a text. The buffer is a
-- parameter; a read that waits is `none`. A round of a loop is a function, and the two tasks take
-- their rounds in any order. A task that stops behind an error message is `stopped`.
pub mod Fifo
pub mod Pair
pub mod Text
pub mod Irq
pub mod Answers
pub mod Start
pub mod Safe
mod Tests
use Prim.Native.String.{String}
use testsystem.Prelude.{
  ℕ, zero, suc, ◌+◌, Bool, true, false, not, Option, none, some, List, [], ◌∷◌, ◌==◌, if◌then◌else◌,
}
use testsystem.Prelude.Int.{ℤ, pos, negsuc, is_negative}

pub record Buffer (S A : Type 0) : Type 0 where
  pub write : List A → S → ℤ × S
  pub read : ℕ → S → Option (ℤ × List A × S)

-- `struct TestData`.
pub record TestData : Type 0 where
  pub test : String
  pub value : Bool

pub data Status : Type 0 where
  running finished stopped : Status

-- The variables of a task: the loop index, and `test.value` or `last`.
pub record Loop : Type 0 where
  pub i : ℕ
  pub flag : Bool
  pub status : Status

abbrev pub loop_start : Loop
loop_start = record { i = 0; flag = true; status = running }

abbrev pub message : Bool → TestData
message value = record { test = "Dies ist ein Test"; value = value }

-- `ret != n`, for a small n.
abbrev pub is_count : ℤ → ℕ → Bool
is_count (pos m) n = m == n
is_count (negsuc m) n = false

abbrev pub equal_flags : Bool → Bool → Bool
equal_flags true b = b
equal_flags false b = not b

-- What `buffer4Test` does with the message that it has read.
unfoldable pub compare_message : Loop → List TestData → Loop
compare_message l [] = record l { status = stopped }
compare_message l (msg ∷ rest) =
    if equal_flags l.flag msg.value
    then record l { i = l.i + 1; flag = not l.flag }
    else record l { status = stopped }

-- The first loops run ten rounds over a text with its end, 18 characters.
abbrev pub text_rounds : ℕ
text_rounds = 10

abbrev pub message_rounds : ℕ
message_rounds = 1000

module _ {S : Type 0} where
  module _ (buffer : Buffer S TestData) where
    unfoldable pub buffer3_round : Loop → S → Loop × S
    buffer3_round l s =
        if l.i == message_rounds
        then (record l { status = finished }, s)
        else let (ret, s') = buffer.write (message l.flag ∷ []) s in
          if is_negative ret
          then (record l { status = stopped }, s')
          else (record l { i = l.i + 1; flag = not l.flag }, s')

    -- The part of a round behind the read.
    unfoldable pub received : Loop → ℤ × List TestData × S → Loop × S
    unfolding compare_message
    received l (ret, msgs, s) =
        if is_negative ret
        then (record l { status = stopped }, s)
        else if is_count ret 1
        then (compare_message l msgs, s)
        else (record l { status = stopped }, s)

    unfoldable pub buffer4_round : Loop → S → Option (Loop × S)
    unfolding received
    buffer4_round l s =
        if l.i == message_rounds
        then some (record l { status = finished }, s)
        else elim (buffer.read 1 s) [ none ↦ none | some r ↦ some (received l r) ]

  module _ (buffer : Buffer S ℕ) (text : List ℕ) where
    unfoldable pub buffer1_round : Loop → S → Loop × S
    buffer1_round l s =
        if l.i == text_rounds
        then (record l { status = finished }, s)
        else let (ret, s') = buffer.write text s in
          if is_negative ret
          then (record l { status = stopped }, s')
          else (record l { i = l.i + 1 }, s')

    unfoldable pub buffer2_round : Loop → S → Option (Loop × S)
    buffer2_round l s =
        if l.i == text_rounds
        then some (record l { status = finished }, s)
        else elim (buffer.read 128 s) [
          | none ↦ none
          | some (ret, chars, s') ↦ some (
              if is_negative ret
              then (record l { status = stopped }, s')
              else if is_count ret 18
              then (record l { i = l.i + 1 }, s')
              else (record l { status = stopped }, s'))
        ]

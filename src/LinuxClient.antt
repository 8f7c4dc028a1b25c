-- ===== src/LinuxClient.antt =====
-- The message client of src/vf610/linux_client.c: `lc0`, its callbacks, and a round of `lcTask`.
-- Whether `buffer_init` succeeds, what `buffer_read` returns and the status of `buffer_write` are
-- parameters. What a round does is a list of effects. A registered callback is `lc_ping` or one of
-- the user's, known by a number.
pub mod Dispatch
pub mod Start
mod Tests
use testsystem.Prelude.{
  ℕ, Bool, true, false, Option, none, some, List, [], ◌∷◌, ◌++◌, ltb, if◌then◌else◌, get_elem?,
  length, set, replicate,
}
use testsystem.Prelude.Int.{ℤ, pos, is_negative}

-- `struct lc_msg`.
pub record LcMsg : Type 0 where
  pub type : ℕ  -- uint8_t
  pub content : List ℕ

pub data Callback : Type 0 where
  lc_ping : Callback
  user : ℕ → Callback

abbrev pub lc_count : ℕ
lc_count = 3

abbrev pub lc_type_act : ℕ
lc_type_act = 0

-- `struct lc`: whether the buffers are there; `motor` is only stored. A callback `none` is NULL.
pub record Lc : Type 0 where
  pub init : Bool
  pub rx : Bool
  pub tx : Bool
  pub callbacks : List (Option Callback)

-- What leaves the file.
pub data Effect : Type 0 where
  written : LcMsg → Effect
  called : ℕ → LcMsg → Effect
  send_failed receive_failed unknown_type : Effect

-- `memset` with 0.
abbrev pub cleared : Lc
cleared = record { init = false; rx = false; tx = false; callbacks = replicate lc_count none }

-- `lc_registerCallback`. `none` is a write outside the array.
unfoldable pub lc_register_callback : ℕ → Callback → Lc → Option Lc
lc_register_callback type callback s =
    if ltb type (length s.callbacks)
    then some (record s { callbacks = set s.callbacks type (some callback) })
    else none

-- The part of `lc_init` behind the two buffers.
abbrev pub start : Lc → Option Lc
start s = lc_register_callback lc_type_act lc_ping (record s { init = true })

-- `lc_init`: whether it returns the client, and the client.
unfoldable pub lc_init : Bool → Bool → Lc → Option (Bool × Lc)
unfolding lc_register_callback
lc_init rx_found tx_found s =
    if s.init
    then some (true, s)
    else if rx_found
    then if tx_found
      then elim (start (record cleared { rx = true; tx = true })) [
        | none ↦ none
        | some s' ↦ some (true, s')
      ]
      else some (false, record cleared { rx = true })
    else some (false, cleared)

-- The status is that of `buffer_write`.
unfoldable pub lc_send : ℤ → LcMsg → ℤ × List Effect
lc_send ret msg = (ret, written msg ∷ [])

-- `lc_ping` with the status of the write, or a callback of the user.
unfoldable pub invoke : ℤ → Callback → LcMsg → List Effect
unfolding lc_send
invoke ret lc_ping msg =
    let (status, sent) = lc_send ret msg in
    if is_negative status then sent ++ (send_failed ∷ []) else sent
invoke ret (user n) msg = called n msg ∷ []

-- A round of `lcTask`: the status and message of `buffer_read`, and the status of a write. `none` is
-- a read outside the array.
unfoldable pub lc_task : ℤ → LcMsg → ℤ → Lc → Option (List Effect)
unfolding invoke
lc_task ret msg write_ret s =
    if is_negative ret
    then some (receive_failed ∷ [])
    else if ltb msg.type lc_count
    then elim (get_elem? s.callbacks msg.type) [
      | none ↦ none
      | some none ↦ some []
      | some (some callback) ↦ some (invoke write_ret callback msg)
    ]
    else some (unknown_type ∷ [])

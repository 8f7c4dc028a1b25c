-- ===== src/Rc.antt =====
-- The remote-control receiver of src/vf610/remote_control.c: eight channels, each fed by a capture
-- unit, and the overflow of the timer that marks a channel stale.
-- A pointer to a channel is its index in the list. A capture unit is the number of its handle, and
-- `none` is NULL.
pub mod Capture
pub mod Freshness
pub mod Setup
mod Tests
use testsystem.Prelude.{
  ℕ, zero, suc, ◌+◌, ◌-◌, ◌*◌, ◌%◌, Bool, true, false, ◌&&◌, Option, none, some, List, [], ◌∷◌, map,
  ltb, ◌==◌, if◌then◌else◌, u32, add32, sub32, length, get_elem?, set, replicate,
}
use testsystem.Prelude.Int.{ℤ, pos, is_negative}

-- `struct rc_channel`; its back pointer `rc` is only stored.
pub record Channel : Type 0 where
  pub capture : Option ℕ
  pub raw : ℕ  -- uint32_t
  pub value : ℕ  -- uint32_t
  pub retry : Bool
  pub corret : Bool

-- `struct rc`, whose timer is only passed on.
abbrev pub Rc : Type 0
Rc = List Channel

abbrev pub rc_max_channels : ℕ
rc_max_channels = 8

abbrev pub rc_min : ℕ
rc_min = 480

abbrev pub rc_max : ℕ
rc_max = 2200

abbrev pub uint16_max : ℕ
uint16_max = 65535

-- The difference of two capture times, with the code's case of an overflow.
unfoldable pub elapsed : ℕ → ℕ → ℕ
elapsed tmp_1 tmp_0 =
    if ltb tmp_1 tmp_0 then sub32 tmp_0 tmp_1 else add32 (sub32 uint16_max tmp_1) tmp_0

-- The body of `rc_IRQHandler` over its channel.
unfoldable pub irq_handler : ℕ → Channel → Channel
unfolding elapsed
irq_handler time c =
    let tmp = elapsed c.raw (u32 time) in
    if ltb rc_min tmp && ltb tmp rc_max
    then record c { value = tmp; corret = true; retry = true; raw = u32 time }
    else record c { raw = u32 time }

-- The body of the loop of `rc_OverfowHandler`.
unfoldable pub overflow_channel : Channel → Channel
overflow_channel c = if c.retry then record c { retry = false } else record c { corret = false }

unfoldable pub overflow_handler : Rc → Rc
unfolding overflow_channel
overflow_handler [] = []
overflow_handler (c ∷ cs) = overflow_channel c ∷ overflow_handler cs

unfoldable pub channel_get : Channel → ℕ
channel_get c = if c.corret then c.value else 0

-- `none` is a read outside the array.
unfoldable pub rc_get : Rc → ℕ → Option ℕ
unfolding channel_get
rc_get rc channel = elim (get_elem? rc channel) [ none ↦ none | some c ↦ some (channel_get c) ]

-- The interrupt of the channel at an index.
unfoldable pub capture_irq : ℕ → ℕ → Rc → Rc
unfolding irq_handler
capture_irq i time [] = []
capture_irq zero time (c ∷ cs) = irq_handler time c ∷ cs
capture_irq (suc i) time (c ∷ cs) = c ∷ capture_irq i time cs

-- A channel as `memset` leaves it.
abbrev pub cleared : Channel
cleared = record { capture = none; raw = 0; value = 0; retry = false; corret = false }

-- `rc_init`: the memory, and the status of `timer_setOverflowCallback`. `none` is NULL.
unfoldable pub rc_init : Bool → ℤ → Option Rc
rc_init has_memory ret =
    if has_memory
    then if is_negative ret then none else some (replicate rc_max_channels cleared)
    else none

-- The loop that looks for a channel with no capture unit, from index `i` on.
unfoldable pub find_free : ℕ → Rc → ℕ
find_free i [] = i
find_free i (c ∷ cs) =
    let rest = find_free (i + 1) cs in elim c.capture [ none ↦ i | some unit ↦ rest ]

-- What `capture_setCallback` and `capture_setPeriod` return, and what the uninitialised `ret` of
-- `rc_setup` holds.
pub record Answers : Type 0 where
  pub set_callback : ℤ
  pub set_period : ℤ
  pub uninitialised : ℤ

unfoldable pub rc_setup : Answers → Rc → ℕ → ℤ × Rc
rc_setup a rc capture =
    let index = find_free 0 rc in
    let claimed = set rc index (record cleared { capture = some capture }) in
    if index == rc_max_channels
    then (a.uninitialised, rc)
    else if is_negative a.set_callback
    then (a.set_callback, set rc index cleared)
    else if is_negative a.set_period
    then (a.set_period, claimed)
    else (pos index, claimed)

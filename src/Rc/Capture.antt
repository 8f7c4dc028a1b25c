-- ===== src/Rc/Capture.antt =====
-- What a capture interrupt makes of the times of two edges, and what `rc_get` can return.
use testsystem.Prelude.{
  ℕ, zero, suc, ◌+◌, ◌≤◌, ◌<◌, ◌≡◌, ◌≢◌, ◌⊎◌, refl, ap, true, some, List, [], ◌∷◌, arith, get_elem?,
  All,
}
use testsystem.Rc.{
  Channel, Rc, elapsed, irq_handler, overflow_channel, overflow_handler, capture_irq, rc_get,
  rc_min, rc_max,
}

-- For two times of a 16-bit counter the difference is exact if the counter has not wrapped. Behind
-- a wrap, or at equal times, it is one less than the ticks between the edges. No sum wraps.
pub elapsed_lem :
    (tmp_1 tmp_0 : ℕ)
    → tmp_1 < 65536
    → tmp_0 < 65536
    → (tmp_1 < tmp_0 → elapsed tmp_1 tmp_0 + tmp_1 ≡ tmp_0)
      × (tmp_0 ≤ tmp_1 → elapsed tmp_1 tmp_0 + 1 + tmp_1 ≡ tmp_0 + 65536)
unfolding elapsed
elapsed_lem a b ha hb = (λ h. ground arith, λ h. ground arith)

-- A valid value is a pulse of the accepted width, and a channel to be kept is valid.
pub record IsSound (c : Channel) : Type 0 where
  pub above : c.corret ≡ true → rc_min < c.value
  pub below : c.corret ≡ true → c.value < rc_max
  pub kept : c.retry ≡ true → c.corret ≡ true

pub irq_handler-IsSound : (time : ℕ) (c : Channel) → IsSound c → IsSound (irq_handler time c)
unfolding irq_handler
irq_handler-IsSound time c s = ground arith

pub overflow_channel-IsSound : (c : Channel) → IsSound c → IsSound (overflow_channel c)
unfolding overflow_channel
overflow_channel-IsSound c s = ground arith

overflow_handler-IsSound : (rc : Rc) → All IsSound rc → All IsSound (overflow_handler rc)
unfolding overflow_handler
overflow_handler-IsSound [] a = tt
overflow_handler-IsSound (c ∷ cs) a =
    (overflow_channel-IsSound c a.0, overflow_handler-IsSound cs a.1)

capture_irq-IsSound : (i time : ℕ) (rc : Rc) → All IsSound rc → All IsSound (capture_irq i time rc)
unfolding capture_irq
capture_irq-IsSound i time [] a = tt
capture_irq-IsSound zero time (c ∷ cs) a = (irq_handler-IsSound time c a.0, a.1)
capture_irq-IsSound (suc i) time (c ∷ cs) a = (a.0, capture_irq-IsSound i time cs a.1)

-- What the interrupts do: an edge of a channel at a time, or an overflow of the timer.
pub data Event : Type 0 where
  edge : ℕ → ℕ → Event
  overflow : Event

unfoldable pub handle : Event → Rc → Rc
unfolding capture_irq overflow_handler
handle (edge i time) rc = capture_irq i time rc
handle overflow rc = overflow_handler rc

unfoldable pub run : List Event → Rc → Rc
run [] rc = rc
run (e ∷ es) rc = run es (handle e rc)

handle-IsSound : (e : Event) (rc : Rc) → All IsSound rc → All IsSound (handle e rc)
unfolding handle
handle-IsSound (edge i time) rc a = capture_irq-IsSound i time rc a
handle-IsSound overflow rc a = overflow_handler-IsSound rc a

run-IsSound : (es : List Event) (rc : Rc) → All IsSound rc → All IsSound (run es rc)
unfolding run
run-IsSound [] rc a = a
run-IsSound (e ∷ es) rc a = run-IsSound es (handle e rc) (handle-IsSound e rc a)

rc_get-range :
    (rc : Rc) (i v : ℕ)
    → All IsSound rc
    → rc_get rc i ≡ some v
    → (v ≡ 0) ⊎ ((rc_min < v) × (v < rc_max))
unfolding rc_get
rc_get-range [] i v a e = absurd (cc)
rc_get-range (c ∷ cs) zero v a e = ground (arith, a.0)
rc_get-range (c ∷ cs) (suc i) v a e = rc_get-range cs i v a.1 e

-- Whatever edges and overflows come, in any order and at any times, `rc_get` returns 0 or a pulse
-- width between the two limits, if the channels were sound before.
pub rc_get-run :
    (es : List Event) (rc : Rc) (i v : ℕ)
    → All IsSound rc
    → rc_get (run es rc) i ≡ some v
    → (v ≡ 0) ⊎ ((rc_min < v) × (v < rc_max))
rc_get-run es rc i v a e = rc_get-range (run es rc) i v (run-IsSound es rc a) e

-- An edge of one channel leaves every other channel as it was.
pub capture_irq-ne :
    (i j time : ℕ) (rc : Rc) → i ≢ j → get_elem? (capture_irq i time rc) j ≡ get_elem? rc j
unfolding capture_irq
capture_irq-ne i j time [] h = refl
capture_irq-ne zero zero time (c ∷ cs) h = absurd (h refl)
capture_irq-ne zero (suc j) time (c ∷ cs) h = refl
capture_irq-ne (suc i) zero time (c ∷ cs) h = refl
capture_irq-ne (suc i) (suc j) time (c ∷ cs) h = capture_irq-ne i j time cs (λ e. h (ap suc e))

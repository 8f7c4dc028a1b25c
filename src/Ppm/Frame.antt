-- ===== src/Ppm/Frame.antt =====
-- The waveform of a frame, independent of the code, and what a receiver reads from it.
use testsystem.Prelude.{
  ℕ, ◌+◌, ◌-◌, ◌*◌, ◌≡◌, refl, Bool, true, false, List, ◌++◌, [], ◌∷◌, arith, length,
}
use testsystem.Ppm.{Call, set_pin, clear_pin, oneshot}

-- The level of the pin and how long it is held, in microseconds.
abbrev pub Span : Type 0
Span = Bool × ℕ

-- A pulse of 500 us before each slot, the slot's time and 500 us of low level, a closing pulse.
unfoldable pub frame : List ℕ → List Span
frame [] = (true, 500) ∷ []
frame (t ∷ ts) = (true, 500) ∷ (false, t + 500) ∷ frame ts

-- A receiver takes each low span, less 500 us, for a slot.
unfoldable pub decode : List Span → List ℕ
decode [] = []
decode ((true, d) ∷ spans) = decode spans
decode ((false, d) ∷ spans) = (d - 500) ∷ decode spans

unfoldable pub duration : List Span → ℕ
duration [] = 0
duration ((level, d) ∷ spans) = d + duration spans

-- The calls that produce a waveform, newest first, on top of the calls before.
unfoldable pub drive : List Span → List Call → List Call
drive [] calls = calls
drive ((true, d) ∷ spans) calls = drive spans (oneshot d ∷ set_pin ∷ calls)
drive ((false, d) ∷ spans) calls = drive spans (oneshot d ∷ clear_pin ∷ calls)

unfoldable pub total : List ℕ → ℕ
total [] = 0
total (t ∷ ts) = t + total ts

pub decode-frame : (ts : List ℕ) → decode (frame ts) ≡ ts
unfolding decode frame
decode-frame [] = refl
decode-frame (t ∷ ts) = ground (arith, decode-frame ts)

pub duration-frame : (ts : List ℕ) → duration (frame ts) ≡ total ts + 1000 * length ts + 500
unfolding duration frame total
duration-frame [] = refl
duration-frame (t ∷ ts) = omega (arith, duration-frame ts)

-- The spans that a log of calls, newest first, shows on the pin, before those collected.
unfoldable pub heard : List Call → List Span → List Span
heard (oneshot d ∷ set_pin ∷ calls) spans = heard calls ((true, d) ∷ spans)
heard (oneshot d ∷ clear_pin ∷ calls) spans = heard calls ((false, d) ∷ spans)
heard _ spans = spans

pub heard-drive :
    (spans : List Span) (calls : List Call) (acc : List Span)
    → heard (drive spans calls) acc ≡ heard calls (spans ++ acc)
unfolding heard drive
heard-drive [] calls acc = refl
heard-drive ((true, d) ∷ spans) calls acc = heard-drive spans (oneshot d ∷ set_pin ∷ calls) acc
heard-drive ((false, d) ∷ spans) calls acc = heard-drive spans (oneshot d ∷ clear_pin ∷ calls) acc

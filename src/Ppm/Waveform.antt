-- ===== src/Ppm/Waveform.antt =====
-- A frame as the pin shows it: the expiries of the timer drive the waveform of `Frame`.
use testsystem.Prelude.{
  ℕ, zero, suc, ◌+◌, ◌*◌, ◌≡◌, refl, ap, ◌∙◌, Bool, false, Option, some, List, [], ◌∷◌, arith,
  length, get_elem?, ltb, if◌then◌else◌, add32, append-nil,
}
use testsystem.Prelude.Int.{ℤ}
use testsystem.Ppm.{
  start, last, Call, set_pin, clear_pin, oneshot, Ppm, ppm_start, timer_handler, follow, expiries,
}
use testsystem.Ppm.Frame.{
  Span, frame, duration, duration-frame, decode, decode-frame, heard, heard-drive, drive, total,
}
use testsystem.Ppm.Invariant.{
  drop, slot_at, total_below, IsReady, Inv, Accepts, ppm_start-Inv, handler-Keeps, slot_sent,
  pulse_sent, handler-start, handler-slot_data,
}

drop_cons :
    (n t : ℕ) (xs ts : List ℕ)
    → drop n xs ≡ t ∷ ts
    → (get_elem? xs n ≡ some t) × (drop (n + 1) xs ≡ ts) × (length xs ≡ n + suc (length ts))
drop_cons zero t [] ts e = absurd (cc)
drop_cons zero t (x ∷ xs) ts e = ground arith
drop_cons (suc n) t [] ts e = absurd (cc)
drop_cons (suc n) t (x ∷ xs) ts e = let h = drop_cons n t xs ts e in ground (arith, h)

-- What is left of a frame once its first pulse has begun.
abbrev rest : ℕ → List ℕ → List Span
rest t ts = (false, t + 500) ∷ frame ts

abbrev steps : List ℕ → ℕ
steps [] = 0
steps (t ∷ ts) = suc (suc (steps ts))

-- The closing pulse has begun, behind the calls for the waveform.
record IsSent (spans : List Span) (p q : Ppm) : Type 0 where
  at_last : q.state ≡ last
  inv : Inv q
  same_slot : q.slot ≡ p.slot
  same_slots : q.slots ≡ p.slots
  driven : q.calls ≡ drive spans p.calls

total_below-length : (ts : List ℕ) → total_below (length ts) ts ≡ total ts
unfolding total
total_below-length [] = refl
total_below-length (t ∷ ts) = ap (λ k. t + k) (total_below-length ts)

sum_at_last :
    (q : Ppm) (n : ℕ) (ts : List ℕ)
    → Inv q
    → q.state ≡ last
    → q.slot ≡ ts
    → q.slots ≡ n
    → q.sum + total ts ≡ 1000 * n
sum_at_last q n ts inv e f g =
    let h : total_below q.pos q.slot ≡ total q.slot =
      ap (λ k. total_below k q.slot) (ground (arith, inv)) ∙ total_below-length q.slot in
    rw (← f, ← g) (ground (arith, inv, h))

steps-length : (ts : List ℕ) → steps ts ≡ 2 * length ts
steps-length [] = refl
steps-length (t ∷ ts) = omega (arith, steps-length ts)

IsSent-before :
    (u : ℕ) (ts : List ℕ) (t : ℕ) (n p : Ppm) {q : Ppm}
    → IsSent (rest u ts) n q
    → n.slot ≡ p.slot
    → n.slots ≡ p.slots
    → n.calls ≡ oneshot 500 ∷ set_pin ∷ oneshot (add32 t 500) ∷ clear_pin ∷ p.calls
    → add32 t 500 ≡ t + 500
    → IsSent (rest t (u ∷ ts)) p q
unfolding drive frame
IsSent-before u ts t n p s a b c f = record {
  at_last = s.at_last;
  inv = s.inv;
  same_slot = s.same_slot ∙ a;
  same_slots = s.same_slots ∙ b;
  driven =
      s.driven
      ∙ ap (drive (rest u ts)) c
      ∙ ap (λ k. drive (rest u ts) (oneshot 500 ∷ set_pin ∷ oneshot k ∷ clear_pin ∷ p.calls)) f;
}

module _ (timer_oneshot : List Call → ℕ → ℤ) (woken : List Call → Bool) where
  abbrev expire : ℕ → Ppm → Option Ppm
  expire = expiries timer_oneshot woken

  expire-suc :
      (n : ℕ) (p : Ppm) {q : Ppm}
      → timer_handler timer_oneshot woken p ≡ some (false, q)
      → expire (suc n) p ≡ expire n q
  unfolding expiries
  expire-suc n p e = ap (λ o. follow o (expire n)) e

  -- The low time of the slot, then the pulse behind it.
  abbrev next : ℕ → Ppm → Ppm
  next t p =
      let q = slot_sent timer_oneshot woken t p in
      pulse_sent timer_oneshot woken (if ltb q.pos q.slots then start else last) q

  module _ (p : Ppm) (ok : Accepts timer_oneshot) (inv : Inv p) (e : p.state ≡ start) where
    abbrev sent : ℕ → Ppm
    sent t = slot_sent timer_oneshot woken t p

    next-eq :
        (n t : ℕ) → get_elem? p.slot p.pos ≡ some t → expire (suc (suc n)) p ≡ expire n (next t p)
    next-eq n t g =
        expire-suc (suc n) p (handler-start timer_oneshot woken p ok t e (ground (arith, inv)) g)
        ∙ expire-suc n (sent t) (handler-slot_data timer_oneshot woken (sent t) ok refl)

    next-Inv : (t : ℕ) → get_elem? p.slot p.pos ≡ some t → Inv (next t p)
    next-Inv t g =
        rw (handler-slot_data timer_oneshot woken (sent t) ok refl) at
          (handler-Keeps timer_oneshot woken (sent t) ok sent-Inv)
      where
        sent-Inv : Inv (sent t)
        sent-Inv =
            rw (handler-start timer_oneshot woken p ok t e (ground (arith, inv)) g) at
              (handler-Keeps timer_oneshot woken p ok inv)

    fits : add32 p.pos 1 ≡ p.pos + 1
    fits = ground (arith, inv)

    time_fits : (t : ℕ) → get_elem? p.slot p.pos ≡ some t → add32 t 500 ≡ t + 500
    time_fits t g =
        let (u, g', le, more, below) = slot_at p.slot p.pos inv.ready.times (ground (arith, inv)) in
        ground (arith, g, g', le)

  -- From the first pulse on, two expiries for each slot send the rest of the frame.
  send :
      (ts : List ℕ) (t : ℕ) (p : Ppm)
      → Accepts timer_oneshot
      → Inv p
      → p.state ≡ start
      → drop p.pos p.slot ≡ t ∷ ts
      → (q : Ppm) × (expire (steps (t ∷ ts)) p ≡ some q) × IsSent (rest t ts) p q
  unfolding drive frame expiries
  send [] t p ok inv e d =
      let (g, d', l) = drop_cons p.pos t p.slot [] d in
      let f = fits p ok inv e in
      let tf = time_fits p ok inv e t g in
      (
        next t p,
        next-eq p ok inv e 0 t g,
        record {
          at_last = ground (arith, l, f, inv);
          inv = next-Inv p ok inv e t g;
          same_slot = refl;
          same_slots = refl;
          driven = ground (arith, tf);
        },
      )
  send (u ∷ ts) t p ok inv e d =
      let (g, d', l) = drop_cons p.pos t p.slot (u ∷ ts) d in
      let f = fits p ok inv e in
      let tf = time_fits p ok inv e t g in
      let (q, r, s) =
        send ts u (next t p) ok (next-Inv p ok inv e t g) (ground (arith, f, l, inv)) (rw f d') in
      (
        q,
        next-eq p ok inv e (steps (u ∷ ts)) t g ∙ r,
        IsSent-before u ts t (next t p) p s refl refl refl tf,
      )

  send_all :
      (p : Ppm) (ts : List ℕ)
      → Accepts timer_oneshot
      → IsReady p
      → p.slot ≡ ts
      → let p0 = (ppm_start timer_oneshot woken p).1 in
        (q : Ppm) × (expire (steps ts) p0 ≡ some q)
        × (q.state ≡ last)
        × (q.slots ≡ p.slots)
        × (q.calls ≡ drive (frame ts) p.calls)
        × (q.sum + total ts ≡ 1000 * p.slots)
  unfolding drive frame ppm_start
  send_all p [] ok r e = absurd (ground (arith, r))
  send_all p (t ∷ ts) ok r e =
      let p0 = (ppm_start timer_oneshot woken p).1 in
      let (q, run, s) = send ts t p0 ok (ppm_start-Inv timer_oneshot woken p r) refl e in
      (
        q,
        run,
        s.at_last,
        s.same_slots,
        s.driven,
        sum_at_last q (p.slots) (t ∷ ts) s.inv s.at_last (s.same_slot ∙ e) s.same_slots,
      )

  -- Of a ready transmitter whose timer takes every request, `ppm_start` and two expiries for each
  -- slot send the frame of its slots: the calls drive that waveform, and the closing pulse runs. The
  -- time of the waveform and the value that is left in `sum` for the pause behind it add up to 2000 us
  -- for each slot and 500 us.
  pub frame_sent :
      (p : Ppm)
      → Accepts timer_oneshot
      → IsReady p
      → (q : Ppm) × (expiries timer_oneshot woken (2 * p.slots) (ppm_start timer_oneshot woken p).1
          ≡ some q)
        × (q.state ≡ last)
        × (q.calls ≡ drive (frame p.slot) p.calls)
        × (duration (frame p.slot) + q.sum ≡ 2000 * p.slots + 500)
  frame_sent p ok r =
      let (q, run, s, n, c, left) = send_all p p.slot ok r refl in
      let k : steps p.slot ≡ 2 * p.slots = omega (arith, steps-length p.slot, r) in
      (q, rw k at run, s, c, omega (arith, left, duration-frame p.slot, r))

  -- What a receiver decodes from the calls of a frame is the slot array.
  pub receiver_reads_slots :
      (p : Ppm)
      → Accepts timer_oneshot
      → IsReady p
      → p.calls ≡ []
      → (q : Ppm) × (expiries timer_oneshot woken (2 * p.slots) (ppm_start timer_oneshot woken p).1
          ≡ some q)
        × (decode (heard q.calls []) ≡ p.slot)
  unfolding heard
  receiver_reads_slots p ok r e =
      let (q, run, s, c, d) = frame_sent p ok r in
      (q, run, rw (c, e, heard-drive (frame p.slot) [] [], append-nil) (decode-frame p.slot))

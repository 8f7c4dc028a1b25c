-- ===== src/Rc/Freshness.antt =====
-- How long a pulse stays valid: `retry` carries it over one overflow of the timer.
use testsystem.Prelude.{
  ℕ, suc, ◌≡◌, refl, ap, Bool, true, false, ◌&&◌, List, [], ◌∷◌, arith, ltb, ◌∙◌, if◌then◌else◌,
  u32,
}
use testsystem.Rc.{Channel, elapsed, irq_handler, overflow_channel, channel_get, rc_min, rc_max}

-- The edge at this time ends a pulse of the accepted width.
abbrev pub is_pulse : ℕ → Channel → Bool
is_pulse time c = ltb rc_min (elapsed c.raw (u32 time)) && ltb (elapsed c.raw (u32 time)) rc_max

-- What one channel sees.
pub data Seen : Type 0 where
  edge : ℕ → Seen
  overflow : Seen

unfoldable pub watch : List Seen → Channel → Channel
watch [] c = c
watch (edge time ∷ es) c = watch es (irq_handler time c)
watch (overflow ∷ es) c = watch es (overflow_channel c)

-- No edge on the way ends a pulse of the accepted width.
abbrev pub IsQuiet : List Seen → Channel → Type 0
IsQuiet [] c = Unit
IsQuiet (edge time ∷ es) c = (is_pulse time c ≡ false) × IsQuiet es (irq_handler time c)
IsQuiet (overflow ∷ es) c = IsQuiet es (overflow_channel c)

abbrev pub count_overflows : List Seen → ℕ
count_overflows [] = 0
count_overflows (edge time ∷ es) = count_overflows es
count_overflows (overflow ∷ es) = suc (count_overflows es)

-- How many more overflows the channel stays valid.
abbrev lives : Bool → Bool → ℕ
lives true corret = 2
lives false true = 1
lives false false = 0

-- A rejected edge changes the saved time alone, and an accepted one makes the channel fresh.
irq_handler-rejected :
    (time : ℕ) (c : Channel)
    → is_pulse time c ≡ false
    → irq_handler time c ≡ record c { raw = u32 time }
unfolding irq_handler
irq_handler-rejected time c h = simp h

irq_handler-accepted :
    (time : ℕ) (c : Channel)
    → is_pulse time c ≡ true
    → irq_handler time c
      ≡ record c { value = elapsed c.raw (u32 time); corret = true; retry = true; raw = u32 time }
unfolding irq_handler
irq_handler-accepted time c h = simp h

quiet_get :
    (es : List Seen) (c : Channel)
    → IsQuiet es c
    → (c.retry ≡ true → c.corret ≡ true)
    → channel_get (watch es c)
      ≡ (if ltb (count_overflows es) (lives c.retry c.corret) then c.value else 0)
unfolding watch channel_get
quiet_get [] c q k = ground arith
quiet_get (edge time ∷ es) c q k =
    let r = irq_handler-rejected time c q.0 in
    ap (λ d. channel_get (watch es d)) r
    ∙ quiet_get es (record c { raw = u32 time }) (rw r at q.1) k
quiet_get (overflow ∷ es) c q k =
    quiet_get es (overflow_channel c) q (unfold overflow_channel in ground arith) ∙ one_less
  where
    one_less :
        (if ltb (count_overflows es) (lives (overflow_channel c).retry (overflow_channel c).corret)
          then (overflow_channel c).value
          else 0)
        ≡ (if ltb (suc (count_overflows es)) (lives c.retry c.corret) then c.value else 0)
    one_less = unfold overflow_channel in ground arith

-- Behind the edge that ends a pulse of the accepted width, while no other such edge comes, the
-- channel reads that width until the second overflow, and 0 from then on, whatever rejected edges
-- come between.
pub pulse_lasts :
    (es : List Seen) (time : ℕ) (c : Channel)
    → is_pulse time c ≡ true
    → IsQuiet es (irq_handler time c)
    → channel_get (watch es (irq_handler time c))
      ≡ (if ltb (count_overflows es) 2 then elapsed c.raw (u32 time) else 0)
pulse_lasts es time c h q =
    let r = irq_handler-accepted time c h in rw r (quiet_get es _ (rw r at q) (λ e. refl))

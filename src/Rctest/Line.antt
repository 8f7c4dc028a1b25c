-- ===== src/Rctest/Line.antt =====
-- What `rcTestTask` prints behind `rcInit` when capture units and the timer interrupt.
-- A capture unit interrupts with the data registered for it by `rc_setup`, which is its channel.
use testsystem.Prelude.{
  ℕ, zero, suc, ◌≡◌, ◌≢◌, refl, ap, ◌∙◌, sym, All-imp, ==_iff, Bool, true, false, ◌==◌, Option,
  none, some, List, [], ◌∷◌, ◌++◌, map, arith, All, length, Bool-cases, inl, inr, if◌then◌else◌,
}
use testsystem.Prelude.Int.{ℤ}
use testsystem.Rc.{
  Channel, Rc, Answers, cleared, irq_handler, overflow_channel, overflow_handler, channel_get,
  rc_get,
}
use testsystem.Rc.Freshness.{Seen, watch}
use testsystem.Rc.Setup.{claimed}
use testsystem.Rctest.{created, captures, rc_task_init, print_channels, rc_test_round, add_time}
use testsystem.Rctest.Start.{rc_task_init_iff}

abbrev pub owns : ℕ → Channel → Bool
owns u c = elim c.capture [ none ↦ false | some v ↦ u == v ]

-- The interrupt of a capture unit.
unfoldable pub unit_irq : ℕ → ℕ → Rc → Rc
unit_irq u time [] = []
unit_irq u time (c ∷ cs) =
    let rest = unit_irq u time cs in if owns u c then irq_handler time c ∷ cs else c ∷ rest

-- A capture unit sees an edge, or the timer overflows.
pub data Signal : Type 0 where
  edge : ℕ → ℕ → Signal
  overflow : Signal

unfoldable pub run : List Signal → Rc → Rc
run [] rc = rc
run (edge u time ∷ signals) rc = run signals (unit_irq u time rc)
run (overflow ∷ signals) rc = run signals (overflow_handler rc)

abbrev add_edge : Bool → ℕ → List Seen → List Seen
add_edge true time seen = Seen.edge time ∷ seen
add_edge false time seen = seen

-- What one unit's channel sees of the signals.
abbrev pub seen_by : ℕ → List Signal → List Seen
seen_by u [] = []
seen_by u (edge v time ∷ signals) = add_edge (v == u) time (seen_by u signals)
seen_by u (overflow ∷ signals) = Seen.overflow ∷ seen_by u signals

abbrev Distinct : List ℕ → Type 0
Distinct [] = Unit
Distinct (u ∷ us) = All (λ v. u ≢ v) us × Distinct us

-- The channels of some units, and two free ones.
abbrev channels : (ℕ → Channel) → List ℕ → Rc
channels f [] = cleared ∷ cleared ∷ []
channels f (u ∷ us) = f u ∷ channels f us

abbrev Owned : (ℕ → Channel) → Type 0
Owned f = (u : ℕ) → (f u).capture ≡ some u

owns-Owned : (f : ℕ → Channel) (u v : ℕ) → Owned f → owns u (f v) ≡ (u == v)
owns-Owned f u v h = rw (h v) refl

edge_to : ℕ → ℕ → (ℕ → Channel) → ℕ → Channel
edge_to u time f v = if u == v then irq_handler time (f v) else f v

edge_to-this :
    (f : ℕ → Channel) (u time v : ℕ) → (u == v) ≡ true → edge_to u time f v ≡ irq_handler time (f v)
unfolding edge_to
edge_to-this f u time v e = simp e refl

edge_to-other : (f : ℕ → Channel) (u time v : ℕ) → (u == v) ≡ false → edge_to u time f v ≡ f v
unfolding edge_to
edge_to-other f u time v e = simp e refl

-- An interrupt that is not for these units.
unit_irq-ne :
    (f : ℕ → Channel) (u time : ℕ) (us : List ℕ)
    → All (λ v. u ≢ v) us
    → channels (edge_to u time f) us ≡ channels f us
unfolding edge_to
unit_irq-ne f u time [] d = refl
unit_irq-ne f u time (v ∷ us) d =
    let other : (u == v) ≡ false = ground (arith, d.0) in simp (other, unit_irq-ne f u time us d.1)

unit_irq-channels :
    (f : ℕ → Channel) (u time : ℕ) (us : List ℕ)
    → Owned f
    → Distinct us
    → unit_irq u time (channels f us) ≡ channels (edge_to u time f) us
unfolding unit_irq
unit_irq-channels f u time [] h d = refl
unit_irq-channels f u time (v ∷ us) h d = elim (Bool-cases (u == v)) [
  | inl e ↦
      (let others = All-imp us (λ w n m. n (sym ((==_iff u v).0 e) ∙ m)) d.0 in
        simp (owns-Owned f u v h, e, edge_to-this f u time v e, unit_irq-ne f u time us others))
  | inr e ↦
      simp (owns-Owned f u v h, e, edge_to-other f u time v e, unit_irq-channels f u time us h d.1)
]

channels-ext :
    (f g : ℕ → Channel) (us : List ℕ) → ((u : ℕ) → f u ≡ g u) → channels f us ≡ channels g us
channels-ext f g [] h = refl
channels-ext f g (u ∷ us) h = simp (h u, channels-ext f g us h)

overflow-channels :
    (f : ℕ → Channel) (us : List ℕ)
    → overflow_handler (channels f us) ≡ channels (λ u. overflow_channel (f u)) us
unfolding overflow_handler overflow_channel
overflow-channels f [] = refl
overflow-channels f (u ∷ us) = simp (overflow-channels f us)

edge_to-Owned : (f : ℕ → Channel) (u time : ℕ) → Owned f → Owned (edge_to u time f)
unfolding edge_to irq_handler
edge_to-Owned f u time h v = ground (arith, h v)

overflow_channel-Owned : (f : ℕ → Channel) → Owned f → Owned (λ u. overflow_channel (f u))
unfolding overflow_channel
overflow_channel-Owned f h v = ground (arith, h v)

watch-edge :
    (f : ℕ → Channel) (u time v : ℕ) (seen : List Seen)
    → watch seen (edge_to u time f v) ≡ watch (add_edge (u == v) time seen) (f v)
unfolding watch
watch-edge f u time v seen = elim (Bool-cases (u == v)) [
  | inl e ↦ simp (e, edge_to-this f u time v e)
  | inr e ↦ simp (e, edge_to-other f u time v e)
]

-- Each channel goes its own way.
run-channels :
    (signals : List Signal) (f : ℕ → Channel) (us : List ℕ)
    → Owned f
    → Distinct us
    → run signals (channels f us) ≡ channels (λ u. watch (seen_by u signals) (f u)) us
unfolding run watch
run-channels [] f us h d = refl
run-channels (edge u time ∷ signals) f us h d =
    ap (run signals) (unit_irq-channels f u time us h d)
    ∙ run-channels signals (edge_to u time f) us (edge_to-Owned f u time h) d
    ∙ channels-ext (λ v. watch (seen_by v signals) (edge_to u time f v))
        (λ v. watch (seen_by v (edge u time ∷ signals)) (f v)) us
        (λ v. watch-edge f u time v (seen_by v signals))
run-channels (overflow ∷ signals) f us h d =
    ap (run signals) (overflow-channels f us)
    ∙ run-channels signals (λ u. overflow_channel (f u)) us (overflow_channel-Owned f h) d

print_channels-tail :
    (n i : ℕ) (c : Channel) (cs : Rc) → print_channels n (suc i) (c ∷ cs) ≡ print_channels n i cs
unfolding print_channels rc_get
print_channels-tail zero i c cs = refl
print_channels-tail (suc n) i c cs =
    ap
      (λ (rest : Option (List ℕ)). elim (rc_get cs i) [
        | none ↦ none
        | some time ↦ add_time time rest
      ])
      (print_channels-tail n (suc i) c cs)

print_channels-all : (cs : Rc) → print_channels (length cs) 0 cs ≡ some (map channel_get cs)
unfolding print_channels rc_get
print_channels-all [] = refl
print_channels-all (c ∷ cs) =
    ap (add_time (channel_get c)) (print_channels-tail (length cs) 0 c cs ∙ print_channels-all cs)

-- What a channel shows that has seen these events since `rc_setup`.
abbrev pub shown : List Seen → ℕ → ℕ
shown seen u = channel_get (watch seen (claimed u))

captures-Distinct : Distinct captures
captures-Distinct = ground arith

-- Once `rcInit` has created the task, a round of `rcTestTask` never reads outside the array,
-- whatever edges the capture units have seen and however often the timer has overflowed. It prints
-- for each capture unit, in the order of the code, what one channel shows that has seen the edges
-- of that unit and the overflows, and 0 for the last two channels.
pub rc_test_round-created :
    (capture_init : ℕ → Bool) (a : ℕ → Answers) (has_memory : Bool) (ret : ℤ) (rc : Rc)
    → (signals : List Signal) → rc_task_init capture_init a has_memory ret ≡ created rc
    → rc_test_round (run signals rc)
      ≡ some (map (λ u. shown (seen_by u signals) u) captures ++ (0 ∷ 0 ∷ []))
unfolding rc_test_round channel_get
rc_test_round-created capture_init a has_memory ret rc signals h =
    let (o, m, n, s, e) = (rc_task_init_iff capture_init a has_memory ret rc).0 h in
    ap (λ rc. rc_test_round (run signals rc)) e
    ∙ ap rc_test_round (run-channels signals claimed captures (λ u. refl) captures-Distinct)
    ∙ print_channels-all (channels (λ u. watch (seen_by u signals) (claimed u)) captures)

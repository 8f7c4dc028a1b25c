-- ===== src/LinuxClient/Dispatch.antt =====
-- Which callback a round of `lcTask` calls.
use testsystem.Prelude.{
  ℕ, zero, suc, ◌<◌, ◌≡◌, refl, ap, ◌∙◌, true, false, Option, none, some, List, [], ◌∷◌, arith, ltb,
  ◌==◌, if◌then◌else◌, get_elem?, length, length-set, set, All, lt→ltb,
}
use testsystem.Prelude.Int.{ℤ, is_negative}
use testsystem.LinuxClient.{LcMsg, Callback, Lc, Effect, lc_register_callback, lc_task, invoke}

abbrev pub continue : Option Lc → (Lc → Option Lc) → Option Lc
continue none k = none
continue (some s) k = k s

-- Registrations one after the other.
unfoldable pub register_all : List (ℕ × Callback) → Lc → Option Lc
register_all [] s = some s
register_all ((type, callback) ∷ calls) s =
    continue (lc_register_callback type callback s) (register_all calls)

-- The callback that was registered last for a type, or the one before all registrations.
abbrev pub registered : ℕ → List (ℕ × Callback) → Option Callback → Option Callback
registered type [] before = before
registered type ((t, callback) ∷ calls) before =
    registered type calls (if t == type then some callback else before)

get_elem?-set :
    (cs : List (Option Callback)) (i t : ℕ) (before : Option Callback) (c : Callback)
    → get_elem? cs t ≡ some before
    → get_elem? (set cs i (some c)) t ≡ some (if i == t then some c else before)
get_elem?-set [] i t before c h = absurd (ground (arith, h))
get_elem?-set (x ∷ xs) zero zero before c h = refl
get_elem?-set (x ∷ xs) zero (suc t) before c h = ground (arith, h)
get_elem?-set (x ∷ xs) (suc i) zero before c h = ground (arith, h)
get_elem?-set (x ∷ xs) (suc i) (suc t) before c h =
    let same : (suc i == suc t) ≡ (i == t) = ground arith in
    simp same (get_elem?-set xs i t before c h)

get_elem?-length :
    (cs : List (Option Callback)) (t : ℕ) (c : Option Callback)
    → get_elem? cs t ≡ some c
    → t < length cs
get_elem?-length [] t c h = absurd (ground (arith, h))
get_elem?-length (x ∷ xs) zero c h = omega arith
get_elem?-length (x ∷ xs) (suc t) c h = omega (arith, get_elem?-length xs t c h)

abbrev with_callback : ℕ → Callback → Lc → Lc
with_callback type callback s = record s { callbacks = set s.callbacks type (some callback) }

register_one :
    (type : ℕ) (callback : Callback) (s : Lc)
    → type < length s.callbacks
    → lc_register_callback type callback s ≡ some (with_callback type callback s)
unfolding lc_register_callback
register_one type callback s h = let fits = lt→ltb type (length s.callbacks) h in simp fits refl

-- Registrations for the three types succeed, and each type has the callback registered last.
register_all-registered :
    (calls : List (ℕ × Callback)) (s : Lc) (t : ℕ) (before : Option Callback)
    → length s.callbacks ≡ 3
    → All (λ c. c.0 < 3) calls
    → get_elem? s.callbacks t ≡ some before
    → (s' : Lc) × (register_all calls s ≡ some s')
      × (get_elem? s'.callbacks t ≡ some (registered t calls before))
unfolding register_all
register_all-registered [] s t before n a h = (s, refl, h)
register_all-registered ((type, callback) ∷ calls) s t before n (lt, a) h =
    let rest =
      register_all-registered calls (with_callback type callback s) t
        (if type == t then some callback else before)
        (length-set s.callbacks type (some callback) ∙ n) a
        (get_elem?-set s.callbacks type t before callback h) in
    let one = register_one type callback s (omega (arith, lt, n)) in
    (rest.0, ap (λ o. continue o (register_all calls)) one ∙ rest.1, rest.2)

-- A callback, or nothing for NULL.
abbrev pub invoked : ℤ → Option Callback → LcMsg → List Effect
invoked ret none msg = []
invoked ret (some callback) msg = invoke ret callback msg

-- A round with a message whose slot is known.
lc_task-slot :
    (s : Lc) (msg : LcMsg) (ret write_ret : ℤ) (slot : Option Callback)
    → is_negative ret ≡ false
    → ltb msg.type 3 ≡ true
    → get_elem? s.callbacks msg.type ≡ some slot
    → lc_task ret msg write_ret s ≡ some (invoked write_ret slot msg)
unfolding lc_task
lc_task-slot s msg ret write_ret none ok known h = simp (ok, known, h) refl
lc_task-slot s msg ret write_ret (some callback) ok known h = simp (ok, known, h) refl

-- Callbacks may be registered in any order for the three types. A round that reads a message of one
-- of the types then calls the callback that was registered last for it, with that message, or the one
-- before all registrations if there was none, and no other.
pub lc_task-registered :
    (calls : List (ℕ × Callback)) (s : Lc) (msg : LcMsg) (ret write_ret : ℤ)
    (before : Option Callback)
    → length s.callbacks ≡ 3
    → All (λ c. c.0 < 3) calls
    → is_negative ret ≡ false
    → get_elem? s.callbacks msg.type ≡ some before
    → (s' : Lc) × (register_all calls s ≡ some s')
      × (lc_task ret msg write_ret s'
          ≡ some (invoked write_ret (registered msg.type calls before) msg))
lc_task-registered calls s msg ret write_ret before n a ok h =
    let known =
      lt→ltb msg.type 3 (omega (arith, n, get_elem?-length s.callbacks msg.type before h)) in
    let r = register_all-registered calls s msg.type before n a h in
    (r.0, r.1, lc_task-slot r.0 msg ret write_ret (registered msg.type calls before) ok known r.2)

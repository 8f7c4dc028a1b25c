-- ===== src/Rc/Setup.antt =====
-- How `rc_setup` hands out the channels.
use testsystem.Prelude.{
  ℕ, zero, suc, ◌+◌, ◌-◌, ◌≤◌, ◌≡◌, refl, sym, ap, ◌∙◌, true, false, some, List, [], ◌∷◌, ◌++◌,
  arith, length, replicate, set, length-append, append-nil, append_assoc, ◌==◌,
}
use testsystem.Prelude.Int.{ℤ, pos, is_negative}
use testsystem.Rc.{Channel, Rc, Answers, cleared, find_free, rc_setup, rc_max_channels}

-- A channel as `rc_setup` leaves it for a capture unit.
abbrev pub claimed : ℕ → Channel
claimed unit = record cleared { capture = some unit }

-- Channels claimed in this order, with the free ones behind.
abbrev pub handed_out : List ℕ → ℕ → Rc
handed_out [] free = replicate free cleared
handed_out (u ∷ us) free = claimed u ∷ handed_out us free

find_free-handed_out : (us : List ℕ) (i free : ℕ) → find_free i (handed_out us free) ≡ i + length us
unfolding find_free
find_free-handed_out [] i zero = omega arith
find_free-handed_out [] i (suc free) = omega arith
find_free-handed_out (u ∷ us) i free = omega (arith, find_free-handed_out us (i + 1) free)

free_index : (us : List ℕ) (free : ℕ) → find_free 0 (handed_out us free) ≡ length us
free_index us free = omega (arith, find_free-handed_out us 0 free)

set-handed_out :
    (us : List ℕ) (free unit : ℕ)
    → set (handed_out us (suc free)) (length us) (claimed unit)
      ≡ handed_out (us ++ (unit ∷ [])) free
set-handed_out [] free unit = refl
set-handed_out (u ∷ us) free unit = ap (λ cs. claimed u ∷ cs) (set-handed_out us free unit)

-- The callback and the period are taken.
abbrev pub Succeeds : Answers → Type 0
Succeeds a = (is_negative a.set_callback ≡ false) × (is_negative a.set_period ≡ false)

-- One call after another, with the statuses in order.
unfoldable pub setup_all : Answers → Rc → List ℕ → List ℤ × Rc
setup_all a rc [] = ([], rc)
setup_all a rc (u ∷ us) =
    let (ret, rc') = rc_setup a rc u in let (rets, rc'') = setup_all a rc' us in (ret ∷ rets, rc'')

abbrev pub indices : ℕ → ℕ → List ℤ
indices i zero = []
indices i (suc n) = pos i ∷ indices (suc i) n

set-free :
    (us : List ℕ) (free : ℕ)
    → set (handed_out us (suc free)) (length us) cleared ≡ handed_out us (suc free)
set-free [] free = refl
set-free (u ∷ us) free = ap (λ cs. claimed u ∷ cs) (set-free us free)

not_last :
    (us : List ℕ) (free : ℕ)
    → length us + suc free ≡ rc_max_channels
    → (length us == rc_max_channels) ≡ false
not_last us free e = ground arith

pub longer : (us : List ℕ) (u : ℕ) → length (us ++ (u ∷ [])) ≡ suc (length us)
longer us u = omega (arith, length-append us (u ∷ []))

pub rc_setup-next :
    (a : Answers) (us : List ℕ) (free unit : ℕ)
    → Succeeds a
    → length us + suc free ≡ rc_max_channels
    → rc_setup a (handed_out us (suc free)) unit
      ≡ (pos (length us), handed_out (us ++ (unit ∷ [])) free)
unfolding rc_setup
rc_setup-next a us free unit s e =
    simp (free_index us (suc free), not_last us free e, s.0, s.1, set-handed_out us free unit)

pub rc_setup-period :
    (a : Answers) (us : List ℕ) (free unit : ℕ)
    → is_negative a.set_callback ≡ false
    → is_negative a.set_period ≡ true
    → length us + suc free ≡ rc_max_channels
    → rc_setup a (handed_out us (suc free)) unit
      ≡ (a.set_period, handed_out (us ++ (unit ∷ [])) free)
unfolding rc_setup
rc_setup-period a us free unit c p e =
    simp (free_index us (suc free), not_last us free e, c, p, set-handed_out us free unit)

-- As many channels as there are units, and some more.
abbrev pub room : List ℕ → ℕ → ℕ
room [] free = free
room (u ∷ us) free = suc (room us free)

pub room-add : (us : List ℕ) (free : ℕ) → room us free ≡ length us + free
room-add [] free = omega arith
room-add (u ∷ us) free = omega (arith, room-add us free)

setup_all-from :
    (a : Answers) (units us : List ℕ) (free : ℕ)
    → Succeeds a
    → length us + room units free ≡ rc_max_channels
    → setup_all a (handed_out us (room units free)) units
      ≡ (indices (length us) (length units), handed_out (us ++ units) free)
unfolding setup_all
setup_all-from a [] us free s e = rw append-nil
setup_all-from a (u ∷ units) us free s e = rw (rc_setup-next a us (room units free) u s e) (
    rw (setup_all-from a units (us ++ (u ∷ [])) free s (omega (arith, longer us u, e)))
      (rw (longer us u, append_assoc)))

-- On a fresh receiver, calls that succeed for up to eight capture units return the channels
-- 0, 1, 2, ... in order, claim one for each unit and leave those behind free.
pub setup_all-fresh :
    (a : Answers) (units : List ℕ)
    → Succeeds a
    → length units ≤ rc_max_channels
    → setup_all a (replicate rc_max_channels cleared) units
      ≡ (indices 0 (length units), handed_out units (rc_max_channels - length units))
setup_all-fresh a units s h =
    let free : ℕ = rc_max_channels - length units in
    let e : room units free ≡ rc_max_channels = omega (arith, room-add units free) in
    ap (λ n. setup_all a (replicate n cleared) units) (sym e)
    ∙ setup_all-from a units [] free s (omega (arith, e))

-- With all eight channels claimed the call claims none, and what it returns is the value of a
-- variable that was never set.
pub rc_setup-full :
    (a : Answers) (us : List ℕ) (unit : ℕ)
    → length us ≡ rc_max_channels
    → rc_setup a (handed_out us 0) unit ≡ (a.uninitialised, handed_out us 0)
unfolding rc_setup
rc_setup-full a us unit e = simp (free_index us 0, e)

-- Where the period is refused the call returns that error, and the channel stays claimed: the next
-- successful call takes the channel behind it.
pub rc_setup-period_refused :
    (a b : Answers) (us : List ℕ) (free unit next : ℕ)
    → is_negative a.set_callback ≡ false
    → is_negative a.set_period ≡ true
    → Succeeds b
    → length us + suc (suc free) ≡ rc_max_channels
    → let (ret, rc) = rc_setup a (handed_out us (suc (suc free))) unit in
      (ret ≡ a.set_period)
      × (rc_setup b rc next ≡ (pos (suc (length us)), handed_out (us ++ (unit ∷ next ∷ [])) free))
rc_setup-period_refused a b us free unit next c p s e =
    rw (rc_setup-period a us (suc free) unit c p e) (
      refl,
      rw (append_assoc, longer us unit) at
          (rc_setup-next b (us ++ (unit ∷ [])) free next s (omega (arith, longer us unit, e))),
    )

-- Where the callback is refused the call returns that error and leaves the receiver as it was.
pub rc_setup-callback_refused :
    (a : Answers) (us : List ℕ) (free unit : ℕ)
    → is_negative a.set_callback ≡ true
    → length us + suc free ≡ rc_max_channels
    → rc_setup a (handed_out us (suc free)) unit ≡ (a.set_callback, handed_out us (suc free))
unfolding rc_setup
rc_setup-callback_refused a us free unit c e =
    simp (free_index us (suc free), not_last us free e, c, set-free us free)

-- ===== src/LinuxClient/Start.antt =====
-- `lc_init` and the array of callbacks.
use testsystem.Prelude.{◌≡◌, refl, Bool, true, false, ◌&&◌, none, some, [], ◌∷◌, arith}
use testsystem.LinuxClient.{lc_ping, Lc, cleared, lc_register_callback, lc_init}

abbrev pub ready_client : Lc
ready_client = record {
  init = true;
  rx = true;
  tx = true;
  callbacks = some lc_ping ∷ none ∷ none ∷ [];
}

-- For a client that is not initialised, the call returns it exactly if both buffers are found, and
-- sets init exactly then. A returned client has lc_ping for LC_TYPE_ACT and no other callback, and a
-- further call returns it unchanged, whatever the buffers. After a failed call, a further call does
-- what it would have done in its place.
pub lc_init-twice :
    (rx tx rx' tx' : Bool) (s : Lc)
    → s.init ≡ false
    → (returned : Bool) × (s' : Lc) × (lc_init rx tx s ≡ some (returned, s'))
      × (returned ≡ (rx && tx))
      × (s'.init ≡ returned)
      × (returned ≡ true
          → (s'.callbacks ≡ some lc_ping ∷ none ∷ none ∷ [])
            × (lc_init rx' tx' s' ≡ some (true, s')))
      × (returned ≡ false → lc_init rx' tx' s' ≡ lc_init rx' tx' s)
unfolding lc_init lc_register_callback
lc_init-twice true true rx' tx' s e = (
  true,
  ready_client,
  simp e refl,
  refl,
  refl,
  λ h. (refl, refl),
  λ h. absurd (ground (arith, h)),
)
lc_init-twice true false rx' tx' s e = (
  false,
  record cleared { rx = true },
  simp e refl,
  refl,
  refl,
  λ h. absurd (ground (arith, h)),
  λ h. simp e refl,
)
lc_init-twice false tx rx' tx' s e =
    (false, cleared, simp e refl, refl, refl, λ h. absurd (ground (arith, h)), λ h. simp e refl)

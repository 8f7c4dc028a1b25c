-- ===== src/LinuxClient/Tests.antt =====
-- The client at concrete inputs.
use testsystem.Prelude.{ℕ, ◌≡◌, refl, some, none, List, [], ◌∷◌, arith}
use testsystem.Prelude.Int.{pos}
use testsystem.LinuxClient.{LcMsg, Callback, user, Lc, written, invoke, lc_send, lc_task}
use testsystem.LinuxClient.Start.{ready_client}
use testsystem.LinuxClient.Dispatch.{register_all, registered, invoked, lc_task-registered}

-- A message of type LC_TYPE_ACT.
abbrev act : LcMsg
act = record { type = 0; content = 7 ∷ [] }

ping_answered : lc_task (pos 0) act (pos 0) ready_client ≡ some (written act ∷ [])
unfolding lc_task invoke lc_send
ping_answered = refl

abbrev pid : LcMsg
pid = record { type = 2; content = 1 ∷ 2 ∷ [] }

abbrev two_calls : List (ℕ × Callback)
two_calls = (2, user 5) ∷ (2, user 6) ∷ []

lc_task-registered_example :
    (s' : Lc) × (register_all two_calls ready_client ≡ some s')
    × (lc_task (pos 0) pid (pos 0) s' ≡ some (invoked (pos 0) (registered 2 two_calls none) pid))
lc_task-registered_example =
    lc_task-registered two_calls ready_client pid (pos 0) (pos 0) none refl
      (omega arith, (omega arith, tt)) refl refl

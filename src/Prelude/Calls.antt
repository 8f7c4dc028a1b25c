-- ===== src/Prelude/Calls.antt =====
-- A start that calls the HAL once for each thing: what a call answers depends on the call, and the
-- calls are recorded with the last one first. A pointer is a number, 0 for NULL.
use Prim.Native.Nat.{ℕ}
use testsystem.Prelude.Tests.{◌==◌, if◌then◌else◌}
use mathlib.Core.Path.{◌≡◌, refl}
use mathlib.Core.Bool.{Bool, true, false}
use mathlib.Core.List.{List, ◌∷◌}
use testsystem.Prelude.Int.{ℤ, is_negative}
use testsystem.Prelude.Task.{Outcome, done, asserted, Task, pure, and_then, is_zero, Ensures}

pub record Answers (C : Type 0) : Type 0 where
  pub pointer : C → ℕ
  pub status : C → ℤ

-- A call with no result that is used.
abbrev pub note : {C : Type 0} → C → Task (List C) (Unit {0})
note c calls = done tt (c ∷ calls)

-- Code under a switch of the configuration.
abbrev pub when : {W : Type 0} → Bool → Task W (Unit {0}) → Task W (Unit {0})
when b task = if b then task else pure tt

module _ {C : Type 0} (a : Answers C) where
  -- A call for a pointer, without a test and with `CONFIG_ASSERT(p != NULL)`.
  abbrev pub get : C → Task (List C) ℕ
  get c calls = done (a.pointer c) (c ∷ calls)

  abbrev pub get_checked : C → Task (List C) ℕ
  get_checked c calls = if a.pointer c == 0 then asserted else done (a.pointer c) (c ∷ calls)

  -- A call with `CONFIG_ASSERT(ret >= 0)`, and with `CONFIG_ASSERT(ret == 0)`.
  abbrev pub call : C → Task (List C) (Unit {0})
  call c calls = if is_negative (a.status c) then asserted else done tt (c ∷ calls)

  abbrev pub call_zero : C → Task (List C) (Unit {0})
  call_zero c calls = if is_zero (a.status c) then done tt (c ∷ calls) else asserted

  -- The rules for a call that is tested.
  module _ {B : Type 0} {Q : B → List C → Type 0} where
    pub get_checked-next :
        (k : ℕ → List C → Outcome (List C) B) (c : C) (calls : List C)
        → (a.pointer c == 0) ≡ false
        → Ensures (k (a.pointer c) (c ∷ calls)) Q
        → Ensures (and_then (get_checked c calls) k) Q
    get_checked-next k c calls p (b, w, e, q) = (b, w, simp (p, e) refl, q)

    pub call-next :
        (k : Unit {0} → List C → Outcome (List C) B) (c : C) (calls : List C)
        → is_negative (a.status c) ≡ false
        → Ensures (k tt (c ∷ calls)) Q
        → Ensures (and_then (call c calls) k) Q
    call-next k c calls p (b, w, e, q) = (b, w, simp (p, e) refl, q)

    pub call_zero-next :
        (k : Unit {0} → List C → Outcome (List C) B) (c : C) (calls : List C)
        → is_zero (a.status c) ≡ true
        → Ensures (k tt (c ∷ calls)) Q
        → Ensures (and_then (call_zero c calls) k) Q
    call_zero-next k c calls p (b, w, e, q) = (b, w, simp (p, e) refl, q)

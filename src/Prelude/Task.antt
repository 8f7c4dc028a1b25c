-- ===== src/Prelude/Task.antt =====
-- Tasks that call the HAL. `W` is the world behind the calls. A task ends with a value, stops at a
-- failed assertion or at an access outside an array, or is still in a loop when its turns are used up.
use Prim.Native.Nat.{zero, suc}
use testsystem.Prelude.Tests.{if◌then◌else◌}
use mathlib.Core.Path.{◌≡◌, refl, sym, ap, ◌∙◌}
use mathlib.Core.Logic.{◌≢◌, ◌↔◌}
use native.Mathlib.Omega.{arith}
use mathlib.Core.Bool.{Bool, true, false}
use testsystem.Prelude.Int.{ℤ, pos, negsuc}

pub data Outcome (W A : Type 0) : Type 0 where
  done : A → W → Outcome W A
  asserted waiting outside : Outcome W A

abbrev pub Task : Type 0 → Type 0 → Type 0
Task W A = W → Outcome W A

abbrev pub and_then : {W A B : Type 0} → Outcome W A → (A → W → Outcome W B) → Outcome W B
and_then (done a w) k = k a w
and_then asserted k = asserted
and_then waiting k = waiting
and_then outside k = outside

infixl 5 ◌>>=◌ ◌>>◌
abbrev pub ◌>>=◌ : {W A B : Type 0} → Task W A → (A → Task W B) → Task W B
◌>>=◌ m k w = and_then (m w) k

abbrev pub ◌>>◌ : {W A B : Type 0} → Task W A → Task W B → Task W B
m >> k = m >>= λ _. k

abbrev pub pure : {W A : Type 0} → A → Task W A
pure a w = done a w

-- `CONFIG_ASSERT`.
abbrev pub assert : {W : Type 0} → Bool → Task W (Unit {0})
assert true w = done tt w
assert false w = asserted

-- What `CONFIG_ASSERT(ret == 0)` and `CONFIG_ASSERT(ret >= 0)` test.
abbrev pub is_zero : ℤ → Bool
is_zero (pos zero) = true
is_zero (pos (suc n)) = false
is_zero (negsuc n) = false

-- A call with a status and no result that is used, or with one, and `CONFIG_ASSERT(ret == 0)`.
abbrev pub checked : {W : Type 0} → ℤ × W → Outcome W (Unit {0})
checked (ret, w) = if is_zero ret then done tt w else Outcome.asserted

abbrev pub checked_result : {W A : Type 0} → ℤ × A × W → Outcome W A
checked_result (ret, a, w) = if is_zero ret then done a w else Outcome.asserted

-- The task ends, with a value and a world as described.
abbrev pub Ensures : {W A : Type 0} → Outcome W A → (A → W → Type 0) → Type 0
Ensures {W} {A} o P = (a : A) × (w : W) × (o ≡ done a w) × P a w

module _ {W A B : Type 0} where
  -- The rule for a sequence.
  pub Ensures-and_then :
      (o : Outcome W A) (k : A → W → Outcome W B) {P : A → W → Type 0} (Q : B → W → Type 0)
      → Ensures o P
      → ((a : A) (w : W) → P a w → Ensures (k a w) Q)
      → Ensures (and_then o k) Q
  Ensures-and_then o k Q (a, w, e, p) f =
      let (b, w', e', q) = f a w p in (b, w', ap (λ o. and_then o k) e ∙ e', q)

pub checked-Ensures :
    {W : Type 0} (r : ℤ × W) (P : Unit {0} → W → Type 0)
    → is_zero r.0 ≡ true
    → P tt r.1
    → Ensures (checked r) P
checked-Ensures (ret, w) P e h = (tt, w, simp e refl, h)

pub checked_result-Ensures :
    {W A : Type 0} (r : ℤ × A × W) (P : A → W → Type 0)
    → is_zero r.0 ≡ true
    → P r.1 r.2
    → Ensures (checked_result r) P
checked_result-Ensures (ret, a, w) P e h = (a, w, simp e refl, h)

pub assert-Ensures :
    {W : Type 0} (b : Bool) (w : W) (P : Unit {0} → W → Type 0)
    → b ≡ true
    → P tt w
    → Ensures (assert b w) P
assert-Ensures b w P e h = (tt, w, ap (λ b. assert b w) e, h)

pub assert_then_iff :
    {W A : Type 0} (b : Bool) (k : Task W A) (w : W) (o : Outcome W A)
    → o ≢ asserted
    → ((assert b >> k) w ≡ o) ↔ ((b ≡ true) × (k w ≡ o))
assert_then_iff true k w o ends = (λ e. (refl, e), λ p. p.1)
assert_then_iff false k w o ends = (λ e. absurd (ends (sym e)), λ p. absurd (ground (arith, p.0)))

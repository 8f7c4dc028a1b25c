-- ===== src/Flexcan/Bus.antt =====
-- The driver of a controller on a bus whose other end sends every message back.
use testsystem.Prelude.{
  ℕ, zero, suc, ◌/◌, ◌%◌, ◌≡◌, Bool, true, false, ◌&&◌, ◌||◌, Option, none, some, List, [], ◌∷◌,
  ◌++◌, ◌==◌, if◌then◌else◌,
}
use testsystem.Prelude.Int.{ℤ, is_negative}
use testsystem.Prelude.Task.{is_zero}
use testsystem.Flexcan.{CanMsg, CanFilter, Can}

-- Two ids agree in the bits of a mask, the lowest `n` bits.
abbrev pub agrees : ℕ → ℕ → ℕ → ℕ → Bool
agrees zero mask a b = true
agrees (suc n) mask a b = (mask % 2 == 0 || a % 2 == b % 2) && agrees n (mask / 2) (a / 2) (b / 2)

abbrev pub accepts : CanFilter → ℕ → Bool
accepts f id = agrees 32 f.mask id f.id

-- The controller: whether it is up, its filter with the id that it was given, and the messages that
-- have arrived.
pub record Node : Type 0 where
  pub is_up : Bool
  pub filter : Option (ℤ × CanFilter)
  pub arrived : List CanMsg

pub record Echoes {W : Type 0} (can : Can W) : Type 0 where
  pub view : W → Node
  pub ups :
      (w : W)
      → let (ret, w') = can.up w in
        (is_zero ret ≡ true) × (view w' ≡ record (view w) { is_up = true })
  pub registers :
      (f : CanFilter) (w : W)
      → (view w).filter ≡ none
      → let (ret, w') = can.register_filter f w in
        (is_negative ret ≡ false) × (view w' ≡ record (view w) { filter = some (ret, f) })
  pub sends :
      (m : CanMsg) (i : ℤ) (f : CanFilter) (w : W)
      → (view w).is_up ≡ true
      → (view w).filter ≡ some (i, f)
      → let (ret, w') = can.send m w in
        (is_zero ret ≡ true)
        × (view w' ≡ record (view w) {
          arrived = if accepts f m.id then (view w).arrived ++ (m ∷ []) else (view w).arrived;
        })
  pub receives :
      (m : CanMsg) (ms : List CanMsg) (i : ℤ) (f : CanFilter) (w : W)
      → (view w).is_up ≡ true
      → (view w).filter ≡ some (i, f)
      → (view w).arrived ≡ m ∷ ms
      → let (ret, got, w') = can.recv i w in
        (is_zero ret ≡ true) × (got ≡ m) × (view w' ≡ record (view w) { arrived = ms })
  pub empties :
      (i : ℤ) (w : W)
      → (view w).arrived ≡ []
      → let (ret, got, w') = can.recv i w in (is_zero ret ≡ false) × (view w' ≡ view w)

-- What goes out on the bus: `sent` are the messages that the controller has sent, the first one
-- first.
pub record Records {W : Type 0} (can : Can W) : Type 0 where
  pub sent : W → List CanMsg
  pub sends_out :
      (m : CanMsg) (w : W)
      → is_zero (can.send m w).0 ≡ true
      → sent (can.send m w).1 ≡ sent w ++ (m ∷ [])
  pub keeps_sent : (i : ℤ) (w : W) → sent (can.recv i w).2 ≡ sent w

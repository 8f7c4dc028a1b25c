-- ===== src/Enet/Board.antt =====
-- A board whose drivers work: what each call returns and what it does.
use testsystem.Prelude.{
  ℕ, ◌/◌, ◌%◌, ◌^◌, ◌≤◌, ◌≡◌, Bool, true, false, ◌||◌, Option, some, List, [], ◌∷◌, ◌++◌, ◌==◌,
  length,
}
use testsystem.Prelude.Task.{Ensures, checked}
use testsystem.Enet.{Hal, not_null, not_failed, scanned}

-- The controllers that are connected and enabled, the buffer that was allocated last with its size
-- and its payload, and the frames that were sent.
pub record Board : Type 0 where
  pub connected : List ℕ
  pub enabled : List ℕ
  pub buffer : ℕ
  pub size : ℕ
  pub payload : List ℕ
  pub wire : List (List ℕ)

abbrev pub elem : ℕ → List ℕ → Bool
elem m [] = false
elem m (x ∷ xs) = m == x || elem m xs

abbrev pub TwoPhys : List (Option ℕ) → Type 0
TwoPhys phys = (p : ℕ) × (q : ℕ) × (phys ≡ some p ∷ some q ∷ [])

-- A controller is enabled only if it is connected, and sends only if it is enabled. A payload fits
-- into its buffer.
pub record Works {W : Type 0} (hal : Hal W) : Type 0 where
  pub view : W → Board
  pub be16_bytes : (n : ℕ) → hal.be16 n ≡ n / 2 ^ 8 % 2 ^ 8 ∷ n % 2 ^ 8 ∷ []
  pub be32_bytes :
      (n : ℕ)
      → hal.be32 n ≡ n / 2 ^ 24 % 2 ^ 8 ∷ n / 2 ^ 16 % 2 ^ 8 ∷ n / 2 ^ 8 % 2 ^ 8 ∷ n % 2 ^ 8 ∷ []
  pub net_inits :
      (id : ℕ) (w : W) → Ensures (not_null (hal.net_init id w)) (λ _ w'. view w' ≡ view w)
  pub scans :
      (m : ℕ) (w : W)
      → Ensures (scanned (hal.phy_scan (some m) w)) (λ phys w'. TwoPhys phys × (view w' ≡ view w))
  pub phys_set :
      (m : ℕ) (phys : List (Option ℕ)) (w : W)
      → Ensures (not_failed (hal.mac_set_phys (some m) phys w)) (λ _ w'. view w' ≡ view w)
  pub connects :
      (m p net : ℕ) (w : W)
      → Ensures
          (not_failed (hal.mac_connect (some m) (some p) net w))
          (λ _ w'. view w' ≡ record (view w) { connected = m ∷ (view w).connected })
  pub enables :
      (m : ℕ) (w : W)
      → elem m (view w).connected ≡ true
      → Ensures
          (not_failed (hal.mac_enable (some m) w))
          (λ _ w'. view w' ≡ record (view w) { enabled = m ∷ (view w).enabled })
  pub allocates :
      (net size : ℕ) (w : W)
      → Ensures
          (not_null (hal.alloc net size w))
          (λ b w'. view w' ≡ record (view w) { buffer = b; size = size })
  pub fills :
      (net b : ℕ) (bytes : List ℕ) (w : W)
      → b ≡ (view w).buffer
      → length bytes ≤ (view w).size
      → view (hal.fill net b bytes w) ≡ record (view w) { payload = bytes }
  pub sends :
      (m b : ℕ) (w : W)
      → elem m (view w).enabled ≡ true
      → b ≡ (view w).buffer
      → Ensures
          (checked (hal.mac_send (some m) b w))
          (λ _ w'. view w' ≡ record (view w) { wire = (view w).wire ++ ((view w).payload ∷ []) })

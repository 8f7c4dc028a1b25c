-- ===== src/Enet.antt =====
-- The Ethernet test of src/imx6/enettest.c: `enettest_init` and `enettest_task`.
-- The drivers are a parameter, a `Hal`, whose pointers are numbers under an Option, `none` for NULL.
-- The delay and the endless loop at the end of the task are left out.
pub mod Board
pub mod Run
mod Tests
use testsystem.Prelude.{
  ℕ, zero, suc, ◌%◌, Bool, true, false, not, Option, none, some, List, [], ◌∷◌, ◌++◌, ◌==◌,
  if◌then◌else◌, length, replicate, get_elem?,
}
use testsystem.Prelude.Int.{ℤ, is_negative}
use testsystem.Prelude.Task.{
  Outcome, done, asserted, Task, ◌>>=◌, ◌>>◌, pure, assert, and_then, checked,
}

-- The calls of the drivers. `fill` is the copy to the payload of a buffer, `be16` and `be32` the bytes
-- in memory of `cpu_to_be16` and `cpu_to_be32`. `create_task` tells whether the answer is pdPASS.
pub record Hal (W : Type 0) : Type 0 where
  pub enet1_id : ℕ
  pub enet2_id : ℕ
  pub eth0_id : ℕ
  pub eth1_id : ℕ
  pub mac_init : ℕ → W → Option ℕ × W
  pub create_task : W → Bool × W
  pub net_init : ℕ → W → Option ℕ × W
  pub phy_scan : Option ℕ → W → ℤ × List (Option ℕ) × W
  pub mac_set_phys : Option ℕ → List (Option ℕ) → W → ℤ × W
  pub mac_connect : Option ℕ → Option ℕ → ℕ → W → ℤ × W
  pub mac_enable : Option ℕ → W → ℤ × W
  pub alloc : ℕ → ℕ → W → Option ℕ × W
  pub fill : ℕ → ℕ → List ℕ → W → W
  pub mac_send : Option ℕ → ℕ → W → ℤ × W
  pub be16 : ℕ → List ℕ
  pub be32 : ℕ → List ℕ

abbrev pub is_pointer : Option ℕ → Bool
is_pointer none = false
is_pointer (some p) = true

-- `CONFIG_ASSERT(p != NULL)` and `CONFIG_ASSERT(ret >= 0)`.
abbrev pub not_null : {W : Type 0} → Option ℕ × W → Outcome W ℕ
not_null (none, w) = asserted
not_null (some p, w) = done p w

abbrev pub not_failed : {W : Type 0} → ℤ × W → Outcome W (Unit {0})
not_failed (ret, w) = if is_negative ret then asserted else done tt w

abbrev pub scanned : {W : Type 0} → ℤ × List (Option ℕ) × W → Outcome W (List (Option ℕ))
scanned (ret, phys, w) = if is_negative ret then asserted else done phys w

-- `phys[i]`, which is asserted not to be NULL.
abbrev pub phy_at : {W : Type 0} → List (Option ℕ) → ℕ → Task W ℕ
phy_at phys i w = elim (get_elem? phys i) [
  | none ↦ asserted
  | some none ↦ asserted
  | some (some p) ↦ done p w
]

-- `sizeof(struct ethframe)`.
abbrev pub ethframe_size : ℕ
ethframe_size = 1038

module _ {W : Type 0} (hal : Hal W) where
  -- The bytes of `eth`; memset takes the lowest byte of its value.
  unfoldable pub eth : List ℕ
  eth =
      hal.be32 0xFFFFFFFF
      ++ (hal.be16 0xFFFF
          ++ (hal.be32 0x12345678
              ++ (hal.be16 0x9ABC ++ (hal.be16 1024 ++ replicate 1024 (0x4242 % 256)))))

  unfoldable pub send_frame : Option ℕ → ℕ → Task W (Unit {0})
  send_frame enet net = do
    buff ← λ w. not_null (hal.alloc net ethframe_size w)
    λ w. done tt (hal.fill net buff eth w)
    λ w. checked (hal.mac_send enet buff w)

  -- The block is written out ten times.
  unfoldable pub send_frames : ℕ → Option ℕ → ℕ → Task W (Unit {0})
  send_frames zero enet net = pure tt
  send_frames (suc n) enet net = send_frame enet net >> send_frames n enet net

  -- The part of the task behind the scan.
  unfoldable pub use_phys : Option ℕ → Option ℕ → ℕ → ℕ → List (Option ℕ) → Task W (Unit {0})
  use_phys enet0 enet1 net0 net1 phys = do
    assert (length phys == 2)
    phy0 ← phy_at phys 0
    phy1 ← phy_at phys 1
    λ w. not_failed (hal.mac_set_phys enet0 phys w)
    λ w. not_failed (hal.mac_connect enet0 (some phy0) net0 w)
    λ w. not_failed (hal.mac_connect enet1 (some phy1) net1 w)
    λ w. not_failed (hal.mac_enable enet0 w)
    λ w. not_failed (hal.mac_enable enet1 w)
    send_frames 10 enet0 net0

  unfoldable pub enettest_task : Option ℕ → Option ℕ → Task W (Unit {0})
  enettest_task enet0 enet1 = do
    net0 ← λ w. not_null (hal.net_init hal.eth0_id w)
    net1 ← λ w. not_null (hal.net_init hal.eth1_id w)
    phys ← λ w. scanned (hal.phy_scan enet0 w)
    use_phys enet0 enet1 net0 net1 phys

  -- Ends with the two elements of `enets`, the argument of the task.
  unfoldable pub enettest_init : Task W (Option ℕ × Option ℕ)
  enettest_init = do
    m ← λ w. not_null (hal.mac_init hal.enet1_id w)
    enet1 ← λ w. let (p, w') = hal.mac_init hal.enet2_id w in done p w'
    assert (is_pointer (some m))
    pass ← λ w. let (pass, w') = hal.create_task w in done pass w'
    assert pass
    pure (some m, enet1)

-- ===== src/Enet/Tests.antt =====
-- A board whose drivers work, and the theorems at concrete inputs.
use testsystem.Prelude.{
  ℕ, ◌/◌, ◌%◌, ◌^◌, ◌≡◌, refl, true, false, none, some, [], ◌∷◌, ◌++◌, replicate, if◌then◌else◌,
  ◌&&◌, ◌==◌, ==_iff, Option, Bool,
}
use testsystem.Prelude.Int.{ℤ, pos, negsuc}
use testsystem.Prelude.Task.{Ensures}
use testsystem.Enet.{Hal, enettest_task}
use testsystem.Enet.Board.{Board, Works, elem}
use testsystem.Enet.Run.{frame, enettest_task-Ensures}

-- Controllers and buffers that are not in order are refused.
abbrev answer : Bool → ℤ
answer true = pos 0
answer false = negsuc 0

-- `second` is the pointer of the second controller.
abbrev drivers : Option ℕ → Hal Board
drivers second = record {
  enet1_id = 1;
  enet2_id = 2;
  eth0_id = 3;
  eth1_id = 4;
  mac_init = λ id w. (if id == 1 then some 70 else second, w);
  create_task = λ w. (true, w);
  net_init = λ id w. (some id, w);
  phy_scan = λ m w. (pos 2, some 8 ∷ some 9 ∷ [], w);
  mac_set_phys = λ m phys w. (pos 0, w);
  mac_connect = λ m p net w. elim m [
    | none ↦ (negsuc 0, w)
    | some n ↦ (pos 0, record w { connected = n ∷ w.connected })
  ];
  mac_enable = λ m w. elim m [
    | none ↦ (negsuc 0, w)
    | some n ↦ (answer (elem n w.connected), record w { enabled = n ∷ w.enabled })
  ];
  alloc = λ net size w. (some 5, record w { buffer = 5; size = size });
  fill = λ net b bytes w. record w { payload = bytes };
  mac_send = λ m b w. elim m [
    | none ↦ (negsuc 0, w)
    | some n ↦
        (answer (elem n w.enabled && b == w.buffer), record w { wire = w.wire ++ (w.payload ∷ []) })
  ];
  be16 = λ n. n / 2 ^ 8 % 2 ^ 8 ∷ n % 2 ^ 8 ∷ [];
  be32 = λ n. n / 2 ^ 24 % 2 ^ 8 ∷ n / 2 ^ 16 % 2 ^ 8 ∷ n / 2 ^ 8 % 2 ^ 8 ∷ n % 2 ^ 8 ∷ [];
}

abbrev works : Works (drivers (some 71))
works = record {
  view = λ w. w;
  be16_bytes = λ n. refl;
  be32_bytes = λ n. refl;
  net_inits = λ id w. (id, w, refl, refl);
  scans = λ m w. (some 8 ∷ some 9 ∷ [], w, refl, ((8, 9, refl), refl));
  phys_set = λ m phys w. (tt, w, refl, refl);
  connects = λ m p net w. (tt, record w { connected = m ∷ w.connected }, refl, refl);
  enables = λ m w e. (tt, record w { enabled = m ∷ w.enabled }, simp e refl, refl);
  allocates = λ net size w. (5, record w { buffer = 5; size = size }, refl, refl);
  fills = λ net b bytes w e le. refl;
  sends = λ m b w e f. (
    tt,
    record w { wire = w.wire ++ (w.payload ∷ []) },
    simp (e, (==_iff b w.buffer).1 f) refl,
    refl,
  );
}

abbrev start : Board
start = record { connected = []; enabled = []; buffer = 0; size = 0; payload = []; wire = [] }

enettest_task-Ensures_example :
    Ensures
      (enettest_task (drivers (some 71)) (some 70) (some 71) start)
      (λ _ w'. w'.wire ≡ replicate 10 frame)
enettest_task-Ensures_example = enettest_task-Ensures (drivers (some 71)) works 70 71 start refl

-- ===== src/Enet/Run.antt =====
-- The Ethernet test on a board whose drivers work, and its start.
use testsystem.Prelude.{
  ℕ, zero, suc, ◌≤◌, ◌≡◌, refl, sym, ap, ◌∙◌, subst, Bool, true, false, ◌&&◌, if◌then◌else◌, Option,
  none, some, List, [], ◌∷◌, ◌++◌, append-nil, append_assoc, arith, length, length-replicate,
  replicate,
}
use testsystem.Prelude.Task.{done, asserted, Ensures, Ensures-and_then}
use testsystem.Enet.{
  Hal, is_pointer, eth, ethframe_size, send_frame, send_frames, use_phys, enettest_task,
  enettest_init,
}
use testsystem.Enet.Board.{Board, Works, elem}

-- To all, from 12:34:56:78:9A:BC, 1024 bytes.
abbrev pub frame : List ℕ
frame =
    0xFF
    ∷ 0xFF
    ∷ 0xFF
    ∷ 0xFF
    ∷ 0xFF
    ∷ 0xFF
    ∷ 0x12
    ∷ 0x34
    ∷ 0x56
    ∷ 0x78
    ∷ 0x9A
    ∷ 0xBC
    ∷ 0x04
    ∷ 0x00
    ∷ replicate 1024 0x42

elem-here : (m : ℕ) (xs : List ℕ) → elem m (m ∷ xs) ≡ true
elem-here m xs = ground arith

elem-next : (m n : ℕ) (xs : List ℕ) → elem m (n ∷ m ∷ xs) ≡ true
elem-next m n xs = ground arith

module _ {W : Type 0} (hal : Hal W) (works : Works hal) where
  open works use {view, be16_bytes, be32_bytes, allocates, fills, sends}

  eth-frame : eth hal ≡ frame
  unfolding eth
  eth-frame =
      simp
        (
          be16_bytes 0xFFFF,
          be16_bytes 0x9ABC,
          be16_bytes 1024,
          be32_bytes 0xFFFFFFFF,
          be32_bytes 0x12345678,
        )
        refl

  frame_fits : length (eth hal) ≤ 1038
  frame_fits =
      subst (λ xs. length xs ≤ 1038) (sym eth-frame)
        (omega (arith, length-replicate {A = ℕ} 1024 0x42))

  send_frame-Ensures :
      (m net : ℕ) (w : W)
      → elem m (view w).enabled ≡ true
      → Ensures (send_frame hal (some m) net w) (λ _ w'.
        ((view w').enabled ≡ (view w).enabled) × ((view w').wire ≡ (view w).wire ++ (frame ∷ [])))
  unfolding send_frame
  send_frame-Ensures m net w on =
      let Post = λ (a : Unit {0}) (w' : W).
        ((view w').enabled ≡ (view w).enabled) × ((view w').wire ≡ (view w).wire ++ (frame ∷ [])) in
      Ensures-and_then _ _ Post (allocates net ethframe_size w) λ b w1 e1.
        let filled =
          fills net b (eth hal) w1 (sym (ap (λ x. x.buffer) e1))
            (subst (λ s. length (eth hal) ≤ s) (sym (ap (λ x. x.size) e1)) frame_fits)
          ∙ ap (λ (x : Board). record x { payload = eth hal }) e1 in
        let on2 = ap (λ (x : Board). elem m x.enabled) filled ∙ on in
        let (a, w3, d, e3) =
          sends m b (hal.fill net b (eth hal) w1) on2 (sym (ap (λ x. x.buffer) filled)) in
        (
          a,
          w3,
          d,
          (
            ap (λ x. x.enabled) e3 ∙ ap (λ x. x.enabled) filled,
            ap (λ x. x.wire) e3
                ∙ ap (λ (x : Board). x.wire ++ (x.payload ∷ [])) filled
                ∙ ap (λ xs. (view w).wire ++ (xs ∷ [])) eth-frame,
          ),
        )

  send_frames-Ensures :
      (n m net : ℕ) (w : W)
      → elem m (view w).enabled ≡ true
      → Ensures
          (send_frames hal n (some m) net w)
          (λ _ w'. (view w').wire ≡ (view w).wire ++ replicate n frame)
  unfolding send_frames
  send_frames-Ensures zero m net w on = (tt, w, refl, sym (append-nil (view w).wire))
  send_frames-Ensures (suc n) m net w on =
      Ensures-and_then _ _ (λ _ w'. (view w').wire ≡ (view w).wire ++ replicate (suc n) frame)
        (send_frame-Ensures m net w on)
        λ _ w1 e1.
          let (a, w2, d, e2) = send_frames-Ensures n m net w1 (ap (elem m) e1.0 ∙ on) in
          (
            a,
            w2,
            d,
            e2
                ∙ ap (λ xs. xs ++ replicate n frame) e1.1
                ∙ append_assoc (view w).wire (frame ∷ []) (replicate n frame),
          )

  use_phys-Ensures :
      (m0 m1 net0 net1 p q : ℕ) (w : W)
      → (view w).wire ≡ []
      → Ensures
          (use_phys hal (some m0) (some m1) net0 net1 (some p ∷ some q ∷ []) w)
          (λ _ w'. (view w').wire ≡ replicate 10 frame)
  unfolding use_phys
  use_phys-Ensures m0 m1 net0 net1 p q w quiet =
      let Post = λ (a : Unit {0}) (w' : W). (view w').wire ≡ replicate 10 frame in
      let k = view w in
      Ensures-and_then _ _ Post (works.phys_set m0 (some p ∷ some q ∷ []) w) λ _ w1 e1.
        Ensures-and_then _ _ Post (works.connects m0 p net0 w1) λ _ w2 e2.
          Ensures-and_then _ _ Post (works.connects m1 q net1 w2) λ _ w3 e3.
            let both : (view w3).connected ≡ m1 ∷ m0 ∷ (view w1).connected =
              ap (λ x. x.connected) e3 ∙ ap (λ (x : Board). m1 ∷ x.connected) e2 in
            Ensures-and_then _ _ Post
              (works.enables m0 w3 (ap (elem m0) both ∙ elem-next m0 m1 (view w1).connected))
              λ _ w4 e4.
                let still : (view w4).connected ≡ m1 ∷ m0 ∷ (view w1).connected =
                  ap (λ x. x.connected) e4 ∙ both in
                Ensures-and_then _ _ Post
                  (works.enables m1 w4
                    (ap (elem m1) still ∙ elem-here m1 (m0 ∷ (view w1).connected)))
                  λ _ w5 e5.
                    let on : (view w5).enabled ≡ m1 ∷ m0 ∷ (view w3).enabled =
                      ap (λ x. x.enabled) e5 ∙ ap (λ (x : Board). m1 ∷ x.enabled) e4 in
                    let silent : (view w5).wire ≡ [] =
                      ap (λ x. x.wire) e5
                      ∙ ap (λ x. x.wire) e4
                      ∙ ap (λ x. x.wire) e3
                      ∙ ap (λ x. x.wire) e2
                      ∙ ap (λ x. x.wire) e1
                      ∙ quiet in
                    let (a, w6, d, e6) =
                      send_frames-Ensures 10 m0 net0 w5
                        (ap (elem m0) on ∙ elem-next m0 m1 (view w3).enabled) in
                    (a, w6, d, e6 ∙ ap (λ xs. xs ++ replicate 10 frame) silent)

  -- On a board whose drivers work and on which nothing was sent, the task with two controllers comes
  -- to its endless loop without a failed assertion, and has sent ten frames
  -- to all, from 12:34:56:78:9A:BC, each with the length 1024 and as many bytes 0x42.
  pub enettest_task-Ensures :
      (m0 m1 : ℕ) (w : W)
      → (view w).wire ≡ []
      → Ensures
          (enettest_task hal (some m0) (some m1) w)
          (λ _ w'. (view w').wire ≡ replicate 10 frame)
  unfolding enettest_task
  enettest_task-Ensures m0 m1 w quiet =
      let Post = λ (a : Unit {0}) (w' : W). (view w').wire ≡ replicate 10 frame in
      Ensures-and_then _ _ Post (works.net_inits hal.eth0_id w) λ net0 w1 e1.
        Ensures-and_then _ _ Post (works.net_inits hal.eth1_id w1) λ net1 w2 e2.
          Ensures-and_then _ _ Post (works.scans m0 w2) λ phys w3 e3.
            let ((p, q, two), same) = e3 in
            subst (λ ps. Ensures (use_phys hal (some m0) (some m1) net0 net1 ps w3) Post) (sym two)
              (use_phys-Ensures m0 m1 net0 net1 p q w3 (ap (λ x. x.wire) (same ∙ e2 ∙ e1) ∙ quiet))

-- `enettest_init` creates the task and ends without a failed assertion exactly if the first controller
-- is found and the task can be created. Whether the second controller is found does not matter: its
-- pointer goes to the task even if it is null.
pub enettest_init_lem :
    {W : Type 0} (hal : Hal W) (p q : Option ℕ) (pass : Bool) (w w1 w2 w3 : W)
    → hal.mac_init hal.enet1_id w ≡ (p, w1)
    → hal.mac_init hal.enet2_id w1 ≡ (q, w2)
    → hal.create_task w2 ≡ (pass, w3)
    → enettest_init hal w ≡ (if is_pointer p && pass then done (p, q) w3 else asserted)
unfolding enettest_init
enettest_init_lem hal none q pass w w1 w2 w3 a b c = simp a refl
enettest_init_lem hal (some m) q true w w1 w2 w3 a b c = simp (a, b, c) refl
enettest_init_lem hal (some m) q false w w1 w2 w3 a b c = simp (a, b, c) refl

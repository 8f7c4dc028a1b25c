-- ===== src/Spitest/Sensors.antt =====
-- What the VF610's task prints when the slaves are sensors.
use Prim.Native.Nat.{bit_or}
use testsystem.Prelude.{
  ℕ, zero, suc, ◌^◌, ◌≡◌, ◌<◌, refl, ap, Option, some, List, [], ◌∷◌, ◌++◌, map, replicate, arith,
  get_elem?, length,
}
use testsystem.Prelude.Task.{Outcome, ◌>>=◌, and_then, checked_result, Ensures, Ensures-and_then}
use testsystem.Spitest.{
  SpiOpt, first_opt, Spi, has_spi, has_slave, exchange, read_twice, vf610_init, vf610_round,
  vf610_task,
}

-- A bus of sensors that works. A sensor with words of eight bits answers the number of a register
-- with bit 7 set, and an idle word, with a word of no meaning and the value of the register.
pub record Sensors {W S : Type 0} (spi : Spi W S) (registers : ℕ → ℕ → ℕ) : Type 0 where
  pub options : S → SpiOpt
  pub starts : (w : W) → Ensures (has_spi (spi.spi_init w)) (λ _ w'. Unit {0})
  pub opens :
      (opt : SpiOpt) (w : W) → Ensures (has_slave (spi.slave_init opt w)) (λ s w'. options s ≡ opt)
  pub reads :
      (s : S) (register : ℕ) (recv : List ℕ) (w : W)
      → register < 128
      → (options s).size ≡ 8
      → length recv ≡ 2
      → Ensures
          (checked_result (spi.transfer s (bit_or register (2 ^ 7) ∷ 0xff ∷ []) recv w))
          (λ recv' w'.
            (get_elem? recv' 1 ≡ some (registers (options s).cs register)) × (length recv' ≡ 2))

-- The second words of some lines, which are what the sensors answer.
abbrev pub answers : List (List ℕ) → List (Option ℕ)
answers [] = []
answers (line ∷ lines) = get_elem? line 1 ∷ answers lines

answers-append : (xs ys : List (List ℕ)) → answers (xs ++ ys) ≡ answers xs ++ answers ys
answers-append [] ys = refl
answers-append (x ∷ xs) ys = ap (λ l. get_elem? x 1 ∷ l) (answers-append xs ys)

module _ {W S : Type 0} (spi : Spi W S) (registers : ℕ → ℕ → ℕ)
    (sensors : Sensors spi registers) where
  abbrev At : ℕ → S → Type 0
  At cs s = ((sensors.options s).cs ≡ cs) × ((sensors.options s).size ≡ 8)

  abbrev Slaves : S × S × S → Type 0
  Slaves (s0, s1, s2) = At 0 s0 × (At 1 s1 × At 2 s2)

  vf610_init-Slaves : (w : W) → Ensures (vf610_init spi w) (λ slaves w'. Slaves slaves)
  unfolding vf610_init
  vf610_init-Slaves w =
      Ensures-and_then (has_spi (spi.spi_init w)) _ (λ slaves w'. Slaves slaves) (sensors.starts w)
        (λ _ w1 _. opened 0 8 500 w1 (λ s0 w2 a.
          opened 1 6 8 w2
            (λ s1 w3 b. opened 2 6 8 w3 (λ s2 w4 c. ((s0, s1, s2), w4, refl, (a, (b, c)))))))
    where
      opened :
          {B : Type 0} {Q : B → W → Type 0} {k : S → W → Outcome W B} (cs cs_hold cs_delay : ℕ)
          (w : W)
          → ((s : S) (w' : W) → At cs s → Ensures (k s w') Q)
          → Ensures
              (and_then
                (has_slave (
                  spi.slave_init
                    (record first_opt { cs_hold = cs_hold; cs_delay = cs_delay; cs = cs })
                    w))
                k)
              Q
      opened {B} {Q} {k} cs cs_hold cs_delay w h =
          let opt = record first_opt { cs_hold = cs_hold; cs_delay = cs_delay; cs = cs } in
          Ensures-and_then (has_slave (spi.slave_init opt w)) k Q (sensors.opens opt w)
            (λ s w' e. h s w' (ap (λ o. o.cs) e, ap (λ o. o.size) e))

  read_twice-answers :
      (s t : S) (i j register : ℕ) (w : W)
      → At i s
      → At j t
      → register < 128
      → Ensures (read_twice spi s t register w) (λ lines w'.
        answers lines ≡ some (registers i register) ∷ some (registers j register) ∷ [])
  unfolding read_twice exchange
  read_twice-answers s t i j register w a b h =
      Ensures-and_then (exchange spi s send idle w) _ Q (sensors.reads s register idle w h a.1 refl)
        (λ recv w1 (e, l).
          Ensures-and_then (exchange spi t send recv w1) _ Q
            (sensors.reads t register recv w1 h b.1 l)
            (λ again w2 (f, m). (recv ∷ again ∷ [], w2, refl, simp (e, f, a.0, b.0) refl)))
    where
      send : List ℕ
      send = bit_or register (2 ^ 7) ∷ 0xff ∷ []

      idle : List ℕ
      idle = 0x4243 ∷ 0x4445 ∷ []

      Q : List (List ℕ) → W → Type 0
      Q lines w' = answers lines ≡ some (registers i register) ∷ some (registers j register) ∷ []

  -- The answers in a round: the third block reads the slave 2 first and then the slave 1.
  abbrev pub round_answers : List (Option ℕ)
  round_answers =
      some (registers 0 0x75)
      ∷ some (registers 0 0x75)
      ∷ some (registers 1 0xf)
      ∷ some (registers 1 0xf)
      ∷ some (registers 2 0xf)
      ∷ some (registers 1 0xf)
      ∷ []

  vf610_round-answers :
      (slaves : S × S × S) (w : W)
      → Slaves slaves
      → Ensures (vf610_round spi slaves w) (λ lines w'. answers lines ≡ round_answers)
  unfolding vf610_round
  vf610_round-answers (s0, s1, s2) w (a, (b, c)) =
      Ensures-and_then (read_twice spi s0 s0 0x75 w) _ Q
        (read_twice-answers s0 s0 0 0 0x75 w a a (omega arith))
        (λ mcu w1 e.
          Ensures-and_then (read_twice spi s1 s1 0xf w1) _ Q
            (read_twice-answers s1 s1 1 1 0xf w1 b b (omega arith))
            (λ lsm w2 f.
              Ensures-and_then (read_twice spi s2 s1 0xf w2) _ Q
                (read_twice-answers s2 s1 2 1 0xf w2 c b (omega arith))
                (λ lsm2 w3 g. (
                  mcu ++ (lsm ++ lsm2),
                  w3,
                  refl,
                  simp (answers-append mcu (lsm ++ lsm2), answers-append lsm lsm2, e, f, g) refl,
                ))))
    where
      Q : List (List ℕ) → W → Type 0
      Q lines w' = answers lines ≡ round_answers

  vf610_task-answers :
      (n : ℕ) (slaves : S × S × S) (w : W)
      → Slaves slaves
      → Ensures
          (vf610_task spi n slaves w)
          (λ rounds w'. map answers rounds ≡ replicate n round_answers)
  unfolding vf610_task
  vf610_task-answers zero slaves w h = ([], w, refl, refl)
  vf610_task-answers (suc n) slaves w h =
      Ensures-and_then (vf610_round spi slaves w) _ Q (vf610_round-answers slaves w h)
        (λ lines w1 e.
          Ensures-and_then (vf610_task spi n slaves w1) _ Q (vf610_task-answers n slaves w1 h)
            (λ rest w2 f. (lines ∷ rest, w2, refl, simp (e, f) refl)))
    where
      Q : List (List (List ℕ)) → W → Type 0
      Q rounds w' = map answers rounds ≡ replicate (suc n) round_answers

  -- On a bus of sensors that works, spitest_init and any number of rounds of the VF610's task pass
  -- all assertions. Each round shows the register 0x75 of the sensor with chip select 0 twice, the
  -- register 0xf of the one with chip select 1 twice, and then that of the one with chip select 2
  -- once and, in the same block, that of the one with chip select 1 again.
  pub vf610_test-answers :
      (n : ℕ) (w : W)
      → Ensures
          ((vf610_init spi >>= vf610_task spi n) w)
          (λ rounds w'. map answers rounds ≡ replicate n round_answers)
  vf610_test-answers n w =
      Ensures-and_then (vf610_init spi w) (λ slaves w1. vf610_task spi n slaves w1) Q
        (vf610_init-Slaves w) (λ slaves w1 h. vf610_task-answers n slaves w1 h)
    where
      Q : List (List (List ℕ)) → W → Type 0
      Q rounds w' = map answers rounds ≡ replicate n round_answers

-- ===== src/Spitest/Overrun.antt =====
-- The arrays of the ADC blocks on the AM57xx, and what `memset` does to them.
use Prim.Native.Nat.{bit_or}
use testsystem.Prelude.{
  ℕ, zero, suc, ◌-◌, ◌*◌, ◌^◌, Bool, Option, none, some, ◌≡◌, ◌<◌, ◌⊎◌, refl, ap, true, false, inl,
  inr, List, [], ◌∷◌, arith, leb, length, replicate,
}
use testsystem.Prelude.Task.{
  Outcome, done, asserted, waiting, outside, and_then, ◌>>=◌, checked_result,
}
use testsystem.Prelude.Int.{ℤ, pos, negsuc}
use testsystem.Spitest.{
  SpiOpt, first_opt, Spi, has_spi, has_slave, fill, memset, am57xx_init, am57xx_round, read_twice,
  read_adc, exchange,
}

-- The task has stopped, at an assertion or at an access outside an array.
abbrev pub Stops : {W A : Type 0} → Outcome W A → Type 0
Stops o = (o ≡ asserted) ⊎ (o ≡ outside)

fill-replicate :
    (words : List ℕ) → fill 0xff (2 * length words) words ≡ replicate (length words) 0xffff
unfolding fill
fill-replicate [] = refl
fill-replicate (word ∷ words) =
    let n = 2 * suc (length words) in
    let whole : leb 2 n ≡ true = ground arith in
    let less : n - 2 ≡ 2 * length words = omega arith in simp (whole, less, fill-replicate words)

-- With as many bytes as the array has, `memset` makes every word 0xffff.
memset-whole :
    {W : Type 0} (words : List ℕ) (w : W)
    → memset words 0xff (2 * length words) w ≡ done (replicate (length words) 0xffff) w
unfolding memset
memset-whole words w =
    let e : leb (2 * length words) (2 * length words) ≡ true = ground arith in
    simp (e, fill-replicate words)

-- With more it accesses memory outside.
memset-outside :
    {W : Type 0} (words : List ℕ) (byte n : ℕ) (w : W)
    → 2 * length words < n
    → memset words byte n w ≡ outside
unfolding memset
memset-outside words byte n w h =
    let e : leb n (2 * length words) ≡ false = ground arith in simp e refl

-- The task has not run out of turns.
abbrev Settles : {W A : Type 0} → Outcome W A → Type 0
Settles waiting = ⊥
Settles (done a w) = Unit
Settles asserted = Unit
Settles outside = Unit

module _ {W A B : Type 0} where
  Stops-and_then :
      (o : Outcome W A) (k : A → W → Outcome W B)
      → Settles o
      → ((a : A) (w : W) → Stops (k a w))
      → Stops (and_then o k)
  Stops-and_then (done a w) k s h = h a w
  Stops-and_then asserted k s h = inl refl
  Stops-and_then waiting k s h = absurd s
  Stops-and_then outside k s h = inr refl

  Stops-outside : (o : Outcome W A) (k : A → W → Outcome W B) → o ≡ outside → Stops (and_then o k)
  Stops-outside o k e = inr (ap (λ o. and_then o k) e)

  Settles-and_then :
      (o : Outcome W A) (k : A → W → Outcome W B)
      → Settles o
      → ((a : A) (w : W) → Settles (k a w))
      → Settles (and_then o k)
  Settles-and_then (done a w) k s h = h a w
  Settles-and_then asserted k s h = tt
  Settles-and_then waiting k s h = s
  Settles-and_then outside k s h = tt

checked_result-Settles : {W A : Type 0} (r : ℤ × A × W) → Settles (checked_result r)
checked_result-Settles (pos zero, a, w) = tt
checked_result-Settles (pos (suc n), a, w) = tt
checked_result-Settles (negsuc n, a, w) = tt

has_spi-Settles : {W : Type 0} (r : Bool × W) → Settles (has_spi r)
has_spi-Settles (true, w) = tt
has_spi-Settles (false, w) = tt

has_slave-Settles : {W S : Type 0} (r : Option S × W) → Settles (has_slave r)
has_slave-Settles (none, w) = tt
has_slave-Settles (some s, w) = tt

module _ {W S : Type 0} (spi : Spi W S) where
  exchange-Settles : (s : S) (send recv : List ℕ) (w : W) → Settles (exchange spi s send recv w)
  unfolding exchange
  exchange-Settles s send recv w = checked_result-Settles (spi.transfer s send recv w)

  read_twice-Settles : (s t : S) (register : ℕ) (w : W) → Settles (read_twice spi s t register w)
  unfolding read_twice
  read_twice-Settles s t register w =
      let send = bit_or register (2 ^ 7) ∷ 0xff ∷ [] in
      Settles-and_then (exchange spi s send (0x4243 ∷ 0x4445 ∷ []) w) _
        (exchange-Settles s send (0x4243 ∷ 0x4445 ∷ []) w)
        (λ recv w1.
          Settles-and_then (exchange spi t send recv w1) _ (exchange-Settles t send recv w1)
            (λ again w2. tt))

  read_adc-outside :
      (s : S) (stack : List ℕ × List ℕ) (w : W)
      → 0 < length stack.0
      → read_adc spi s stack w ≡ outside
  unfolding read_adc
  read_adc-outside s (send, recv) w h =
      let bytes = 2 * length send * 2 in
      let e : memset send 0xff bytes w ≡ outside =
        memset-outside send 0xff bytes w (omega (arith, h)) in
      simp e refl

  am57xx_init-Settles : (w : W) → Settles (am57xx_init spi w)
  unfolding am57xx_init
  am57xx_init-Settles w =
      Settles-and_then (has_spi (spi.spi_init w)) _ (has_spi-Settles (spi.spi_init w)) (λ _ w1.
        Settles-and_then (opened first_opt w1) _ (has_slave-Settles (spi.slave_init first_opt w1))
          (λ s0 w2.
            Settles-and_then (opened (adc_opt 1) w2) _
              (has_slave-Settles (spi.slave_init (adc_opt 1) w2))
              (λ s1 w3.
                Settles-and_then (opened (adc_opt 3) w3) _
                  (has_slave-Settles (spi.slave_init (adc_opt 3) w3)) (λ s2 w4. tt))))
    where
      adc_opt : ℕ → SpiOpt
      adc_opt cs = record first_opt { cs_hold = 6; cs_delay = 8; cs = cs; size = 16 }

      opened : SpiOpt → W → Outcome W S
      opened opt w = has_slave (spi.slave_init opt w)

  -- On the AM57xx, with 32 words in each array, no driver gets the task through its first round:
  -- it stops at an assertion, or where the `memset` of the first ADC block leaves its array.
  pub am57xx_round-Stops :
      (stack1 stack2 : List ℕ × List ℕ) (w : W)
      → length stack1.0 ≡ 32
      → Stops ((am57xx_init spi >>= am57xx_round spi stack1 stack2) w)
  unfolding am57xx_round
  am57xx_round-Stops stack1 stack2 w h =
      Stops-and_then (am57xx_init spi w) _ (am57xx_init-Settles w) (λ (s0, s1, s2) w1.
        Stops-and_then (read_twice spi s0 s0 0x75 w1) _ (read_twice-Settles s0 s0 0x75 w1)
          (λ mpu w2.
            Stops-outside (read_adc spi s1 stack1 w2) _
              (read_adc-outside s1 stack1 w2 (omega (arith, h)))))

-- ===== src/Spitest/Tests.antt =====
-- A bus of sensors, and the theorems at concrete inputs.
use Prim.Native.Nat.{bit_or}
use testsystem.Prelude.{
  ℕ, suc, ◌+◌, ◌*◌, ◌%◌, ◌^◌, ◌≡◌, ◌<◌, refl, true, ◌==◌, ==_iff, all_below, all_below-eq_true,
  some, [], ◌∷◌, map, replicate, get_or,
}
use testsystem.Prelude.Int.{pos}
use testsystem.Prelude.Task.{◌>>=◌, Ensures, outside}
use testsystem.Spitest.{
  SpiOpt, Spi, memset, am57xx_init, am57xx_round, read_twice, read_adc, exchange, vf610_init,
  vf610_task,
}
use testsystem.Spitest.Overrun.{Stops, am57xx_round-Stops}
use testsystem.Spitest.Sensors.{Sensors, answers, round_answers, vf610_test-answers}

-- The register `r` of the sensor with chip select `cs` is 256 cs + r. The world counts the transfers.
abbrev registers : ℕ → ℕ → ℕ
registers cs r = 256 * cs + r

abbrev bus : Spi ℕ SpiOpt
bus = record {
  spi_init = λ w. (true, w);
  slave_init = λ opt w. (some opt, w);
  transfer = λ s send recv w. (pos 0, 0x11 ∷ registers s.cs (get_or send 0 0 % 128) ∷ [], suc w);
}

register_table : all_below 128 (λ r. bit_or r (2 ^ 7) % 128 == r) ≡ true
unfolding all_below
register_table = refl

register_number : (r : ℕ) → r < 128 → bit_or r (2 ^ 7) % 128 ≡ r
register_number r h =
    (==_iff (bit_or r (2 ^ 7) % 128) r).0
      (all_below-eq_true 128 (λ r. bit_or r (2 ^ 7) % 128 == r) r register_table h)

abbrev bus_sensors : Sensors bus registers
bus_sensors = record {
  options = λ s. s;
  starts = λ w. (tt, w, refl, tt);
  opens = λ opt w. (opt, w, refl, refl);
  reads = λ s r recv w h size l. (
    0x11 ∷ registers s.cs (bit_or r (2 ^ 7) % 128) ∷ [],
    suc w,
    refl,
    (simp (register_number r h) refl, refl),
  );
}

vf610_test-answers_example :
    Ensures
      ((vf610_init bus >>= vf610_task bus 2) 0)
      (λ rounds w'. map answers rounds ≡ replicate 2 (round_answers bus registers bus_sensors))
vf610_test-answers_example = vf610_test-answers bus registers bus_sensors 2 0

am57xx_round-Stops_example :
    Stops ((am57xx_init bus >>= am57xx_round bus (replicate 32 7, replicate 32 7) ([], [])) 0)
am57xx_round-Stops_example = am57xx_round-Stops bus (replicate 32 7, replicate 32 7) ([], []) 0 refl

-- On this bus it is the access outside the array that stops the task.
am57xx_outside :
    (am57xx_init bus >>= am57xx_round bus (replicate 32 7, replicate 32 7) ([], [])) 0 ≡ outside
unfolding am57xx_init am57xx_round read_twice read_adc exchange memset
am57xx_outside = refl

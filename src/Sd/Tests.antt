-- ===== src/Sd/Tests.antt =====
-- A driver whose world is the card itself.
use testsystem.Prelude.{
  ℕ, ◌+◌, ◌-◌, ◌*◌, ◌^◌, ◌≡◌, refl, true, false, Option, [], ◌∷◌, arith, ◌==◌, if◌then◌else◌,
}
use testsystem.Prelude.Int.{ℤ, pos}
use testsystem.Prelude.Task.{is_zero, Ensures}
use testsystem.Sd.{Cmd, cmd, acmd, Host, sdtest_task}
use testsystem.Sd.Card.{
  Card, idle, ready, ident, standby, transfer, sending, receiving, Responds, go_idle, check,
  app_command, busy, powered, all_send_cid, send_address, select, stop_reading, stop_writing,
  set_wide, Gives, Conforms,
}
use testsystem.Sd.Start.{sdtest_task-Ensures}

abbrev polled : Card → ℤ × ℕ × Card
polled k =
    if k.polls == 0
    then (pos 0, k.ocr + 2 ^ 31, record k { app = false; mode = ready })
    else (pos 0, k.ocr, record k { app = false; polls = k.polls - 1 })

abbrev respond : Cmd → ℕ → Card → ℤ × ℕ × Card
respond (cmd n) arg k =
    if n == 0
    then (pos 0, 0, record k { mode = idle; app = false })
    else if n == 2
    then (pos 0, 0, record k { mode = ident })
    else if n == 3
    then (pos 0, k.rca * 2 ^ 16 + k.low, record k { mode = standby })
    else if n == 55
    then (pos 0, 0, record k { app = true })
    else if n == 8
    then (pos 0, arg, k)
    else (pos 0, 0, record k { mode = transfer })
respond (acmd n) arg k = if n == 41 then polled k else (pos 0, 0, record k { app = false })

abbrev plain : Host Card
plain = record {
  send_command = respond;
  set_block_size = λ k. (pos 0, k);
  read = λ c at n k. (pos 0, k.content, record k { mode = sending });
  write = λ c at bytes k. (pos 0, record k { mode = receiving; content = bytes });
  set_bus_wide = λ k. (pos 0, k);
  set_clock = λ hz k. (pos 0, k);
}

respond-Responds :
    (c : Cmd) (arg : ℕ) (w : Card) (r : Option ℕ) (k : Card)
    → Responds w c arg r k
    → let (ret, d, w') = respond c arg w in (is_zero ret ≡ true) × Gives r d × (w' ≡ k)
respond-Responds c arg w r k go_idle = (refl, tt, refl)
respond-Responds c arg w r k (check _ m) = (refl, refl, refl)
respond-Responds c arg w r k (app_command _) = (refl, tt, refl)
respond-Responds c arg w r k (busy _ n m a p) = ground (arith, p)
respond-Responds c arg w r k (powered _ m a p) = ground (arith, p)
respond-Responds c arg w r k (all_send_cid m) = (refl, tt, refl)
respond-Responds c arg w r k (send_address m) = (refl, refl, refl)
respond-Responds c arg w r k (select _ m e) = (refl, tt, refl)
respond-Responds c arg w r k (stop_reading m) = (refl, tt, refl)
respond-Responds c arg w r k (stop_writing m) = (refl, tt, refl)
respond-Responds c arg w r k (set_wide m a) = (refl, tt, refl)

abbrev plain_conforms : Conforms plain
plain_conforms = record {
  view = λ k. k;
  commands = respond-Responds;
  block_sizes = λ w m. (refl, refl);
  reads = λ w m. (refl, refl, refl);
  writes = λ w bytes m. (refl, refl);
  bus_widths = λ w m. (refl, refl);
  clocks = λ w hz m. (refl, refl);
}

-- A card that is busy three times.
abbrev slow_card : Card
slow_card = record {
  mode = idle;
  app = false;
  polls = 3;
  ocr = 0xff8000;
  rca = 0x1234;
  low = 0x520;
  content = 7 ∷ 8 ∷ [];
}

sdtest_task-Ensures_example :
    Ensures
      (sdtest_task plain 4 slow_card)
      (λ a w'. (w'.mode ≡ transfer) × (w'.content ≡ slow_card.content))
sdtest_task-Ensures_example =
    sdtest_task-Ensures plain plain_conforms 4 slow_card (omega arith) (omega arith) (omega arith)

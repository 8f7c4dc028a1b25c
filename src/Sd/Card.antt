-- ===== src/Sd/Card.antt =====
-- An SD card as its specification describes it: the modes, and the commands that it answers in them.
use testsystem.Prelude.{ℕ, suc, ◌+◌, ◌*◌, ◌^◌, ◌≡◌, Bool, true, false, Option, none, some, List}
use testsystem.Prelude.Task.{is_zero}
use testsystem.Sd.{Cmd, cmd, acmd, Host, data_len}

pub data Mode : Type 0 where
  idle ready ident standby transfer sending receiving : Mode

-- `polls` is how often the card still says that it is busy, `ocr` its operating conditions, `low` the
-- status bits beside its address, `content` the first bytes of its memory.
pub record Card : Type 0 where
  pub mode : Mode
  pub app : Bool
  pub polls : ℕ
  pub ocr : ℕ
  pub rca : ℕ
  pub low : ℕ
  pub content : List ℕ

-- The command and its argument, the result if it is determined, and the card behind it.
pub data Responds (k : Card) : Cmd → ℕ → Option ℕ → Card → Type 0 where
  go_idle : Responds k (cmd 0) 0 none (record k { mode = idle; app = false })
  check : (arg : ℕ) → k.mode ≡ idle → Responds k (cmd 8) arg (some arg) k
  app_command : (arg : ℕ) → Responds k (cmd 55) arg none (record k { app = true })
  busy :
      (arg n : ℕ)
      → k.mode ≡ idle
      → k.app ≡ true
      → k.polls ≡ suc n
      → Responds k (acmd 41) arg (some k.ocr) (record k { app = false; polls = n })
  powered :
      (arg : ℕ)
      → k.mode ≡ idle
      → k.app ≡ true
      → k.polls ≡ 0
      → Responds k (acmd 41) arg (some (k.ocr + 2 ^ 31)) (record k { app = false; mode = ready })
  all_send_cid : k.mode ≡ ready → Responds k (cmd 2) 0 none (record k { mode = ident })
  send_address :
      k.mode ≡ ident
      → Responds k (cmd 3) 0 (some (k.rca * 2 ^ 16 + k.low)) (record k { mode = standby })
  select :
      (arg : ℕ)
      → k.mode ≡ standby
      → arg ≡ k.rca * 2 ^ 16
      → Responds k (cmd 7) arg none (record k { mode = transfer })
  stop_reading : k.mode ≡ sending → Responds k (cmd 12) 0 none (record k { mode = transfer })
  stop_writing : k.mode ≡ receiving → Responds k (cmd 12) 0 none (record k { mode = transfer })
  set_wide :
      k.mode ≡ transfer → k.app ≡ true → Responds k (acmd 6) 2 none (record k { app = false })

abbrev pub Gives : Option ℕ → ℕ → Type 0
Gives none d = Unit
Gives (some r) d = d ≡ r

-- The driver with a card behind it: wherever the card answers, the driver reports success and the
-- card's answer. The rest works while the card is in transfer mode.
pub record Conforms {W : Type 0} (host : Host W) : Type 0 where
  pub view : W → Card
  pub commands :
      (c : Cmd) (arg : ℕ) (w : W) (r : Option ℕ) (k : Card)
      → Responds (view w) c arg r k
      → let (ret, d, w') = host.send_command c arg w in
        (is_zero ret ≡ true) × Gives r d × (view w' ≡ k)
  pub block_sizes :
      (w : W)
      → (view w).mode ≡ transfer
      → let (ret, w') = host.set_block_size w in (is_zero ret ≡ true) × (view w' ≡ view w)
  pub reads :
      (w : W)
      → (view w).mode ≡ transfer
      → let (ret, bytes, w') = host.read (cmd 18) 0 data_len w in
        (is_zero ret ≡ true)
        × (bytes ≡ (view w).content)
        × (view w' ≡ record (view w) { mode = sending })
  pub writes :
      (w : W) (bytes : List ℕ)
      → (view w).mode ≡ transfer
      → let (ret, w') = host.write (cmd 25) 0 bytes w in
        (is_zero ret ≡ true) × (view w' ≡ record (view w) { mode = receiving; content = bytes })
  pub bus_widths :
      (w : W)
      → (view w).mode ≡ transfer
      → let (ret, w') = host.set_bus_wide w in (is_zero ret ≡ true) × (view w' ≡ view w)
  pub clocks :
      (w : W) (hz : ℕ)
      → (view w).mode ≡ transfer
      → let (ret, w') = host.set_clock hz w in (is_zero ret ≡ true) × (view w' ≡ view w)

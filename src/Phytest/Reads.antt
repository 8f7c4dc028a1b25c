-- ===== src/Phytest/Reads.antt =====
-- What a read returns, as long as no wait runs into its timeout.
use testsystem.Prelude.{ℕ, ◌≡◌, ◌⊎◌, inl, inr, refl, sym, ap, ◌∙◌, subst, true, false, some, arith}
use testsystem.Prelude.Int.{pos}
use testsystem.Phytest.{
  Op, op_read, op_write, Mmfr, Mac, enet1_handler, mdio_write_start, mdio_read_start,
  mdio_write_end, mdio_read_end,
}
use testsystem.Phytest.Interface.{
  Pc, between, reading, writing, has_read, has_written, System, update, transferred, Idle, Step,
  starts_read, starts_write, transfers, interrupts, reads, writes, Reach, here, next, initial,
}

-- Nothing under way.
abbrev Quiet : System → Type 0
Quiet s = (s.busy ≡ false) × (s.mac.eir_mii ≡ false) × (s.mac.mii ≡ false)

-- The transfer runs, or has set the flag, or has given the semaphore; `D` holds once it is done.
abbrev Stage : System → Type 0 → Type 0
Stage s D =
    ((s.busy ≡ true) × (s.mac.eir_mii ≡ false) × (s.mac.mii ≡ false))
    ⊎ ((s.busy ≡ false) × (s.mac.eir_mii ≡ true) × (s.mac.mii ≡ false) × D)
    ⊎ ((s.busy ≡ false) × (s.mac.eir_mii ≡ false) × (s.mac.mii ≡ true) × D)

abbrev At : Pc → System → Type 0
At between s = Quiet s
At (reading id addr) s =
    (s.mac.mmfr.op ≡ op_read)
    × (s.mac.mmfr.pa ≡ id)
    × (s.mac.mmfr.ra ≡ addr)
    × Stage s (s.mac.mmfr.value ≡ s.regs id addr)
At (writing id addr value) s =
    (s.mac.mmfr.op ≡ op_write)
    × (s.mac.mmfr.pa ≡ id)
    × (s.mac.mmfr.ra ≡ addr)
    × (s.mac.mmfr.value ≡ value)
    × Stage s (s.regs id addr ≡ value)
At (has_read id addr value) s = Quiet s × (value ≡ s.regs id addr)
At (has_written id addr value) s = Quiet s × (s.regs id addr ≡ value)

Idle-Quiet : (pc : Pc) (s : System) → Idle pc → At pc s → Quiet s
Idle-Quiet between s i a = a
Idle-Quiet (reading id addr) s i a = absurd i
Idle-Quiet (writing id addr value) s i a = absurd i
Idle-Quiet (has_read id addr value) s i a = a.0
Idle-Quiet (has_written id addr value) s i a = a.0

update_self : (regs : ℕ → ℕ → ℕ) (id addr value : ℕ) → update regs id addr value id addr ≡ value
update_self regs id addr value = ground arith

irq-At : (pc : Pc) (s : System) → At pc s → At pc (record s { mac = enet1_handler s.mac })
unfolding enet1_handler
irq-At between s a = ground arith
irq-At (reading id addr) s a = ground arith
irq-At (writing id addr value) s a = ground arith
irq-At (has_read id addr value) s a = ground arith
irq-At (has_written id addr value) s a = ground arith

not_given : (s : System) (D : Type 0) → s.busy ≡ true → Stage s D → s.mac.mii ≡ false
not_given s D b (inl x) = x.2
not_given s D b (inr (inl x)) = x.2
not_given s D b (inr (inr x)) = absurd (ground (arith, b, x.0))

transfer-At : (pc : Pc) (s : System) → s.busy ≡ true → At pc s → At pc (transferred s.mac.mmfr.op s)
transfer-At between s b a = absurd (ground arith)
transfer-At (reading id addr) s b a =
    subst (λ op. At (reading id addr) (transferred op s)) (sym a.0)
      (
        a.0,
        a.1,
        a.2,
        inr (
            inl (
              refl,
              refl,
              not_given s _ b a.3,
              ap (λ p. s.regs p s.mac.mmfr.ra) a.1 ∙ ap (s.regs id) a.2,
            )),
      )
transfer-At (writing id addr value) s b a =
    subst (λ op. At (writing id addr value) (transferred op s)) (sym a.0)
      (
        a.0,
        a.1,
        a.2,
        a.3,
        inr (
            inl (
              refl,
              refl,
              not_given s _ b a.4,
              ap (λ p. update s.regs p s.mac.mmfr.ra s.mac.mmfr.value id addr) a.1
                  ∙ ap (λ r. update s.regs id r s.mac.mmfr.value id addr) a.2
                  ∙ update_self s.regs id addr s.mac.mmfr.value
                  ∙ a.3,
            )),
      )
transfer-At (has_read id addr value) s b a = absurd (ground arith)
transfer-At (has_written id addr value) s b a = absurd (ground arith)

-- Only the end of a transfer gives the semaphore, so a wait that ends finds it done.
Stage-given :
    (s : System) (D : Type 0)
    → s.mac.mii ≡ true
    → Stage s D
    → (s.busy ≡ false) × (s.mac.eir_mii ≡ false) × D
Stage-given s D m (inl x) = absurd (ground (arith, m, x.2))
Stage-given s D m (inr (inl x)) = absurd (ground (arith, m, x.2))
Stage-given s D m (inr (inr x)) = (x.0, x.1, x.3)

read_end :
    (m mac : Mac) (value : ℕ)
    → mdio_read_end m ≡ (pos 0, some value, mac)
    → (m.mii ≡ true) × (m.mmfr.value ≡ value) × (record m { mii = false } ≡ mac)
unfolding mdio_read_end
read_end m mac value e = ground (arith, e)

write_end :
    (m mac : Mac)
    → mdio_write_end m ≡ (pos 0, mac)
    → (m.mii ≡ true) × (record m { mii = false } ≡ mac)
unfolding mdio_write_end
write_end m mac e = ground (arith, e)

transferred-pc : (op : Op) (s : System) → (transferred op s).pc ≡ s.pc
transferred-pc op_read s = refl
transferred-pc op_write s = refl

Step-At : {s t : System} → Step s t → At s.pc s → At t.pc t
unfolding mdio_read_start mdio_write_start
Step-At {s} (starts_read id addr i) a =
    let q = Idle-Quiet s.pc s i a in (refl, refl, refl, inl (refl, q.1, q.2))
Step-At {s} (starts_write id addr value i) a =
    let q = Idle-Quiet s.pc s i a in (refl, refl, refl, refl, inl (refl, q.1, q.2))
Step-At {s} (transfers b) a =
    subst (λ pc. At pc (transferred s.mac.mmfr.op s)) (sym (transferred-pc s.mac.mmfr.op s))
      (transfer-At s.pc s b a)
Step-At {s} interrupts a = irq-At s.pc s a
Step-At {s} (reads id addr value mac p e) a =
    let r = read_end s.mac mac value e in
    let at = subst (λ pc. At pc s) p a in
    let done = Stage-given s _ r.0 at.3 in
    subst
      (λ (m : Mac). At (has_read id addr value) (record s { pc = has_read id addr value; mac = m }))
      r.2 ((done.0, done.1, refl), sym r.1 ∙ done.2)
Step-At {s} (writes id addr value mac p e) a =
    let r = write_end s.mac mac e in
    let at = subst (λ pc. At pc s) p a in
    let done = Stage-given s _ r.0 at.4 in
    subst
      (λ (m : Mac).
        At (has_written id addr value) (record s { pc = has_written id addr value; mac = m }))
      r.1 ((done.0, done.1, refl), done.2)

Reach-At : {s t : System} → At s.pc s → Reach s t → At t.pc t
Reach-At a here = a
Reach-At a (next r st) = Step-At st (Reach-At a r)

-- What a call that has ended says about the registers.
abbrev pub IsCurrent : Pc → (ℕ → ℕ → ℕ) → Type 0
IsCurrent between regs = Unit
IsCurrent (reading id addr) regs = Unit
IsCurrent (writing id addr value) regs = Unit
IsCurrent (has_read id addr value) regs = value ≡ regs id addr
IsCurrent (has_written id addr value) regs = regs id addr ≡ value

At-IsCurrent : (pc : Pc) (s : System) → At pc s → IsCurrent pc s.regs
At-IsCurrent between s a = tt
At-IsCurrent (reading id addr) s a = tt
At-IsCurrent (writing id addr value) s a = tt
At-IsCurrent (has_read id addr value) s a = a.1
At-IsCurrent (has_written id addr value) s a = a.1

-- From the end of `phytest_init` on and in every order of the steps, as long as no wait runs into its
-- timeout: behind a read the value is that of the register, and behind a write the register has the
-- value.
pub Reach-IsCurrent :
    {s : System} (mmfr : Mmfr) (regs : ℕ → ℕ → ℕ)
    → Reach (initial mmfr regs) s
    → IsCurrent s.pc s.regs
Reach-IsCurrent {s} mmfr regs r = At-IsCurrent s.pc s (Reach-At (refl, refl, refl) r)

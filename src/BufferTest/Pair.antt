-- ===== src/BufferTest/Pair.antt =====
-- `buffer3Test` and `buffer4Test` in any order of their rounds.
use testsystem.Prelude.{
  ℕ, zero, suc, ◌+◌, ◌≤◌, ◌≡◌, ◌≢◌, ◌⊎◌, inl, inr, refl, sym, ap, ◌∙◌, subst, Bool, true, false,
  not, Option, none, some, List, [], ◌∷◌, ◌++◌, arith, ◌==◌, Bool-cases, ==_iff,
}
use testsystem.Prelude.Int.{pos, is_negative}
use testsystem.BufferTest.{
  Buffer, TestData, running, finished, stopped, Loop, loop_start, message, compare_message,
  buffer3_round, buffer4_round, received, equal_flags,
}
use testsystem.BufferTest.Fifo.{Fifo}

-- The two tasks and the buffer.
pub record Pair (S : Type 0) : Type 0 where
  pub writer : Loop
  pub reader : Loop
  pub store : S

-- `n` messages whose values alternate from `flag` on, and the value behind them.
abbrev pub pending : ℕ → Bool → List TestData
pending zero flag = []
pending (suc n) flag = message flag ∷ pending n (not flag)

abbrev pub flips : ℕ → Bool → Bool
flips zero flag = flag
flips (suc n) flag = flips n (not flag)

pending-snoc :
    (n : ℕ) (flag : Bool) → pending n flag ++ (message (flips n flag) ∷ []) ≡ pending (suc n) flag
pending-snoc zero flag = refl
pending-snoc (suc n) flag = ap (λ ms. message flag ∷ ms) (pending-snoc n (not flag))

flips-suc : (n : ℕ) (flag : Bool) → flips (suc n) flag ≡ not (flips n flag)
flips-suc zero flag = refl
flips-suc (suc n) flag = flips-suc n (not flag)

module _ {S : Type 0} (buffer : Buffer S TestData) (fifo : Fifo buffer) where
  open fifo use {contents, written, refused, empty_waits, taken}

  abbrev pub after_write : Pair S → Pair S
  after_write t =
      let (l, s) = buffer3_round buffer t.writer t.store in record t { writer = l; store = s }

  abbrev pub after_read : Pair S → Loop × S → Pair S
  after_read t (l, s) = record t { reader = l; store = s }

  -- A round of one of the tasks.
  pub data Step (t : Pair S) : Pair S → Type 0 where
    writes : t.writer.status ≡ running → Step t (after_write t)
    reads :
        (r : Loop × S)
        → t.reader.status ≡ running
        → buffer4_round buffer t.reader t.store ≡ some r
        → Step t (after_read t r)

  pub data Reach (t : Pair S) : Pair S → Type 0 where
    here : Reach t t
    next : {u v : Pair S} → Reach t u → Step u v → Reach t v

  -- The buffer holds the messages between the reader and the writer.
  record Inv (n : ℕ) (t : Pair S) : Type 0 where
    held : contents t.store ≡ pending n t.reader.flag
    flags : t.writer.flag ≡ flips n t.reader.flag
    counts : t.writer.i ≡ t.reader.i + n
    bound : t.writer.i ≤ 1000
    going : (t.reader.status ≡ running) ⊎ (t.reader.status ≡ finished)
    ended : t.writer.status ≡ finished → t.writer.i ≡ 1000

  abbrev Good : Pair S → Type 0
  Good t = (n : ℕ) × Inv n t

  -- The three ways through a round of the writer.
  buffer3_round-cases :
      (l : Loop) (s : S)
      → let w = buffer.write (message l.flag ∷ []) s in
        ((buffer3_round buffer l s ≡ (record l { status = finished }, s)) × (l.i ≡ 1000))
        ⊎ ((buffer3_round buffer l s ≡ (record l { status = stopped }, w.1))
            × (is_negative w.0 ≡ true))
        ⊎ ((buffer3_round buffer l s ≡ (record l { i = l.i + 1; flag = not l.flag }, w.1))
            × (is_negative w.0 ≡ false)
            × (l.i ≢ 1000))
  unfolding buffer3_round
  buffer3_round-cases l s = ground arith

  writes-Good : (t : Pair S) → t.writer.status ≡ running → Good t → Good (after_write t)
  writes-Good t run (n, h) =
      let P = λ (r : Loop × S). Good (record t { writer = r.0; store = r.1 }) in
      elim (buffer3_round-cases t.writer t.store) [
        | inl (e, at_end) ↦ subst P (sym e) (
          n,
          record {
            held = h.held;
            flags = h.flags;
            counts = h.counts;
            bound = h.bound;
            going = h.going;
            ended = λ _. at_end;
          },
        )
        | inr (inl (e, failed)) ↦ subst P (sym e) (
          n,
          record {
            held = refused _ t.store failed ∙ h.held;
            flags = h.flags;
            counts = h.counts;
            bound = h.bound;
            going = h.going;
            ended = λ q. absurd (ground (arith, q));
          },
        )
        | inr (inr (e, done, more)) ↦ subst P (sym e) (
          suc n,
          record {
            held =
                written _ t.store done
                ∙ ap (λ ms. ms ++ (message t.writer.flag ∷ [])) h.held
                ∙ ap (λ b. pending n t.reader.flag ++ (message b ∷ [])) h.flags
                ∙ pending-snoc n t.reader.flag;
            flags = ap not h.flags ∙ sym (flips-suc n t.reader.flag);
            counts = omega (arith, h.counts);
            bound = omega (arith, h.bound, more);
            going = h.going;
            ended = λ q. absurd (ground (arith, run, q));
          },
        )
      ]

  abbrev from_some : Loop × S → Option (Loop × S) → Loop × S
  from_some r none = r
  from_some r (some x) = x

  equal_flags_self : (b : Bool) → equal_flags b b ≡ true
  equal_flags_self true = refl
  equal_flags_self false = refl

  received-message :
      (l : Loop) (s : S)
      → received buffer l (pos 1, message l.flag ∷ [], s)
        ≡ (record l { i = l.i + 1; flag = not l.flag }, s)
  unfolding received compare_message
  received-message l s = simp (equal_flags_self l.flag) refl

  -- The three ways through a round of the reader.
  buffer4_round-cases :
      (n : ℕ) (l : Loop) (s : S)
      → contents s ≡ pending n l.flag
      → ((buffer4_round buffer l s ≡ some (record l { status = finished }, s)) × (l.i ≡ 1000))
        ⊎ ((buffer4_round buffer l s ≡ none) × (n ≡ 0))
        ⊎ ((k : ℕ) × (s' : S) × (n ≡ suc k)
            × (buffer4_round buffer l s ≡ some (record l { i = l.i + 1; flag = not l.flag }, s'))
            × (contents s' ≡ pending k (not l.flag)))
  unfolding buffer4_round
  buffer4_round-cases zero l s e = elim (Bool-cases (l.i == 1000)) [
    | inl at_end ↦ inl (simp at_end refl, (==_iff l.i 1000).0 at_end)
    | inr more ↦ inr (inl (simp (more, empty_waits 1 s e) refl, refl))
  ]
  buffer4_round-cases (suc k) l s e = elim (Bool-cases (l.i == 1000)) [
    | inl at_end ↦ inl (simp at_end refl, (==_iff l.i 1000).0 at_end)
    | inr more ↦
        let t =
          taken 1 s (message l.flag ∷ []) (pending k (not l.flag)) e (omega arith) (omega arith)
            (λ q. absurd (omega (arith, q))) in
        inr (inr (k, t.0, refl, simp (more, t.1, received-message l t.0) refl, t.2))
  ]

  reads-Good :
      (t : Pair S) (r : Loop × S)
      → t.reader.status ≡ running
      → buffer4_round buffer t.reader t.store ≡ some r
      → Good t
      → Good (after_read t r)
  reads-Good t r run e (n, h) =
      let P = λ (r : Loop × S). Good (after_read t r) in
      elim (buffer4_round-cases n t.reader t.store h.held) [
        | inl (c, at_end) ↦ subst P (ap (from_some r) (sym c ∙ e)) (
          n,
          record {
            held = h.held;
            flags = h.flags;
            counts = h.counts;
            bound = h.bound;
            going = inr refl;
            ended = h.ended;
          },
        )
        | inr (inl (c, z)) ↦ absurd (ground (arith, sym c ∙ e))
        | inr (inr (k, s', z, c, held)) ↦ subst P (ap (from_some r) (sym c ∙ e)) (
          k,
          record {
            held = held;
            flags = h.flags ∙ ap (λ m. flips m t.reader.flag) z;
            counts = omega (arith, h.counts, z);
            bound = h.bound;
            going = inl run;
            ended = h.ended;
          },
        )
      ]

  Reach-Good : {t u : Pair S} → Good t → Reach t u → Good u
  Reach-Good g here = g
  Reach-Good g (next {u} r (writes run)) = writes-Good u run (Reach-Good g r)
  Reach-Good g (next {u} r (reads x run e)) = reads-Good u x run e (Reach-Good g r)

  abbrev pub pair_start : S → Pair S
  pair_start s = record { writer = loop_start; reader = loop_start; store = s }

  start-Good : (s : S) → contents s ≡ [] → Good (pair_start s)
  start-Good s e = (
    0,
    record {
      held = e;
      flags = refl;
      counts = refl;
      bound = omega arith;
      going = inl refl;
      ended = λ q. absurd (ground (arith, q));
    },
  )

  buffer4_round-finished :
      (l : Loop) (s : S)
      → l.i ≡ 1000
      → buffer4_round buffer l s ≡ some (record l { status = finished }, s)
  unfolding buffer4_round
  buffer4_round-finished l s at_end = simp ((==_iff l.i 1000).1 at_end) refl

  not_waiting :
      (u : Pair S)
      → Good u
      → u.writer.status ≡ finished
      → buffer4_round buffer u.reader u.store ≢ none
  not_waiting u (n, h) fin e = elim (buffer4_round-cases n u.reader u.store h.held) [
    | inl (c, at_end) ↦ ground (arith, sym c ∙ e)
    | inr (inl (c, z)) ↦
        let at_end : u.reader.i ≡ 1000 = omega (arith, h.ended fin, h.counts, z) in
        ground (arith, sym (buffer4_round-finished u.reader u.store at_end) ∙ e)
    | inr (inr (k, s', z, c, held)) ↦ ground (arith, sym c ∙ e)
  ]

  -- From an empty buffer on and in every order of the rounds, `buffer4Test` meets no error, is never
  -- ahead of `buffer3Test`, and does not wait for a message once that has finished.
  pub rounds-no_error :
      (s : S) (u : Pair S)
      → contents s ≡ []
      → Reach (pair_start s) u
      → (u.reader.status ≢ stopped)
        × (u.reader.i ≤ u.writer.i)
        × (u.writer.status ≡ finished → buffer4_round buffer u.reader u.store ≢ none)
  rounds-no_error s u e r =
      let (n, h) = Reach-Good (start-Good s e) r in
      (λ q. ground (arith, h.going, q), omega (arith, h.counts), not_waiting u (n, h))

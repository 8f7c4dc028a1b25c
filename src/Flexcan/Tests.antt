-- ===== src/Flexcan/Tests.antt =====
-- A controller on a bus that sends every message back, and the theorems at concrete inputs.
use testsystem.Prelude.{
  ◌+◌, ◌-◌, ◌%◌, ◌^◌, ◌≡◌, refl, ap, true, false, Option, none, some, List, [], ◌∷◌, ◌++◌, arith,
  if◌then◌else◌,
}
use testsystem.Prelude.Int.{ℤ, pos, negsuc}
use testsystem.Prelude.Task.{Ensures, is_zero}
use testsystem.Flexcan.{
  CanMsg, CanFilter, Can, msg, filter, kv4x_answer, s32k_answer, kv4x_echo_task, s32k_echo_task,
  answer_rounds,
}
use testsystem.Flexcan.Bus.{Node, Echoes, Records, accepts}
use testsystem.Flexcan.Echo.{echo_tasks-Ensures}
use testsystem.Flexcan.Answer.{answers, answer_rounds-once}

abbrev echoed : Option (ℤ × CanFilter) → CanMsg → List CanMsg → List CanMsg
echoed none m ms = ms
echoed (some (i, f)) m ms = if accepts f m.id then ms ++ (m ∷ []) else ms

abbrev first_of : List CanMsg → Node → ℤ × CanMsg × Node
first_of [] w = (negsuc 0, msg, w)
first_of (m ∷ ms) w = (pos 0, m, record w { arrived = ms })

abbrev bus : Can Node
bus = record {
  up = λ w. (pos 0, record w { is_up = true });
  register_filter = λ f w. (pos 0, record w { filter = some (pos 0, f) });
  send = λ m w. (pos 0, record w { arrived = echoed w.filter m w.arrived });
  recv = λ i w. first_of w.arrived w;
}

abbrev bus_echoes : Echoes bus
bus_echoes = record {
  view = λ w. w;
  ups = λ w. (refl, refl);
  registers = λ f w e. (refl, refl);
  sends = λ m i f w u e.
      (refl, ap (λ (o : Option (ℤ × CanFilter)). record w { arrived = echoed o m w.arrived }) e);
  receives = λ m ms i f w u e q.
      let first = λ (xs : List CanMsg). first_of xs w in
      (ap (λ xs. is_zero (first xs).0) q, ap (λ xs. (first xs).1) q, ap (λ xs. (first xs).2) q);
  empties = λ i w q.
      let first = λ (xs : List CanMsg). first_of xs w in
      (ap (λ xs. is_zero (first xs).0) q, ap (λ xs. (first xs).2) q);
}

abbrev start : Node
start = record { is_up = false; filter = none; arrived = [] }

echo_tasks-Ensures_example :
    Ensures (kv4x_echo_task bus 1000 start) (λ _ w'. w'.arrived ≡ [])
    × Ensures (s32k_echo_task bus 1000 start) (λ _ w'. w'.arrived ≡ [])
echo_tasks-Ensures_example = echo_tasks-Ensures bus bus_echoes 1000 start refl

-- A message with another last byte.
abbrev other : CanMsg
other = record {
  id = 0x123;
  length = 8;
  bytes = 0x01 ∷ 0x12 ∷ 0x34 ∷ 0x56 ∷ 0x78 ∷ 0x9A ∷ 0xAB ∷ 0xCE ∷ [];
}

abbrev two_messages : List CanMsg
two_messages = msg ∷ record msg { id = 0x12F } ∷ []

abbrev waiting_messages : Node
waiting_messages = record { is_up = true; filter = some (pos 0, filter); arrived = two_messages }

-- The same bus with the messages that were sent.
abbrev recorded : Can (Node × List CanMsg)
recorded = record {
  up = λ (w, out). let (ret, w') = bus.up w in (ret, (w', out));
  register_filter = λ f (w, out). let (ret, w') = bus.register_filter f w in (ret, (w', out));
  send = λ m (w, out). let (ret, w') = bus.send m w in (ret, (w', out ++ (m ∷ [])));
  recv = λ i (w, out). let (ret, m, w') = bus.recv i w in (ret, m, (w', out));
}

abbrev recorded_echoes : Echoes recorded
recorded_echoes = record {
  view = λ w. w.0;
  ups = λ w. (refl, refl);
  registers = λ f w e. bus_echoes.registers f w.0 e;
  sends = λ m i f w u e. bus_echoes.sends m i f w.0 u e;
  receives = λ m ms i f w u e q. bus_echoes.receives m ms i f w.0 u e q;
  empties = λ i w q. bus_echoes.empties i w.0 q;
}

abbrev recorded_records : Records recorded
recorded_records = record { sent = λ w. w.1; sends_out = λ m w e. refl; keeps_sent = λ i w. refl }

answer_rounds-once_example :
    Ensures
      (answer_rounds recorded kv4x_answer 2 (pos 0) (waiting_messages, []))
      (λ _ w'. (w'.0.arrived ≡ []) × (w'.1 ≡ answers (λ id. id - 0x100) two_messages))
    × Ensures
        (answer_rounds recorded s32k_answer 2 (pos 0) (waiting_messages, []))
        (λ _ w'. (w'.0.arrived ≡ []) × (w'.1 ≡ answers (λ id. (id + 0x100) % 2 ^ 32) two_messages))
answer_rounds-once_example =
    answer_rounds-once recorded recorded_echoes recorded_records two_messages (pos 0)
      (waiting_messages, []) refl (omega arith, refl, (omega arith, refl, tt))

abbrev up_already : Node
up_already = record start { is_up = true }

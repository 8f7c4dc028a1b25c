-- ===== src/Can/Echo.antt =====
-- The echo mode of src/c28x/can_test.c: the interrupt `can_test_msg_received`, which puts a message in
-- a queue and sends it back, and the rounds of `can_task`, which print the messages of the queue.
-- The queue of FreeRTOS is its list with a capacity, and the status of `can_sendISR` comes with the
-- message. Either step is atomic, since all they share is the queue.
use testsystem.Prelude.{
  ℕ, zero, suc, ◌-◌, ◌≤◌, ◌<◌, ◌≡◌, refl, sym, subst, true, Option, none, some, List, [], ◌∷◌, ◌++◌,
  append_assoc, append-nil, arith, length, length-append, ltb, if◌then◌else◌, replicate,
}
use testsystem.Prelude.Int.{ℤ}
use testsystem.Prelude.Task.{is_zero}

-- `struct can_msg`.
pub record CanMsg : Type 0 where
  pub id : ℕ
  pub ts : ℕ
  pub length_field : ℕ
  pub bytes : List ℕ

-- The queue with the oldest message first, the messages sent back and those printed.
pub record EchoTest : Type 0 where
  pub queue : List CanMsg
  pub sent : List CanMsg
  pub printed : List CanMsg

-- `xQueueSendToBackFromISR`, whose result is not used: a full queue drops the message.
unfoldable pub send_to_back : ℕ → CanMsg → List CanMsg → List CanMsg
send_to_back capacity msg queue = if ltb (length queue) capacity then queue ++ (msg ∷ []) else queue

-- `none` is the failed assertion on `can_sendISR`.
unfoldable pub can_test_msg_received : ℕ → CanMsg → ℤ → EchoTest → Option EchoTest
unfolding send_to_back
can_test_msg_received capacity msg ret s =
    if is_zero ret
    then some (record s { queue = send_to_back capacity msg s.queue; sent = s.sent ++ (msg ∷ []) })
    else none

abbrev pub receive : List CanMsg → EchoTest → EchoTest
receive [] s = s
receive (msg ∷ queue) s = record s { queue = queue; printed = s.printed ++ (msg ∷ []) }

-- `xQueueReceive` in a round of the task, and the line for its message.
unfoldable pub print_received : EchoTest → EchoTest
print_received s = receive s.queue s

pub data Event : Type 0 where
  arrived : CanMsg → ℤ → Event
  polled : Event

abbrev pub and_run : Option EchoTest → (EchoTest → Option EchoTest) → Option EchoTest
and_run none k = none
and_run (some s) k = k s

unfoldable pub run_echo : ℕ → List Event → EchoTest → Option EchoTest
unfolding can_test_msg_received print_received
run_echo capacity [] s = some s
run_echo capacity (arrived msg ret ∷ events) s =
    and_run (can_test_msg_received capacity msg ret s) (run_echo capacity events)
run_echo capacity (polled ∷ events) s = run_echo capacity events (print_received s)

abbrev pub arrivals : List Event → List CanMsg
arrivals [] = []
arrivals (arrived msg ret ∷ events) = msg ∷ arrivals events
arrivals (polled ∷ events) = arrivals events

-- With so many messages waiting, every message can be sent back and finds room in the queue.
abbrev pub InTime : ℕ → ℕ → List Event → Type 0
InTime capacity waiting [] = Unit
InTime capacity waiting (arrived msg ret ∷ events) =
    (is_zero ret ≡ true) × (waiting < capacity) × InTime capacity (suc waiting) events
InTime capacity waiting (polled ∷ events) = InTime capacity (waiting - 1) events

-- The messages sent and printed in the end.
abbrev Brings : Option EchoTest → List CanMsg → List CanMsg → Type 0
Brings o sent printed =
    (s : EchoTest) × (o ≡ some s) × (s.sent ≡ sent) × (s.printed ≡ printed) × (s.queue ≡ [])

-- Enough rounds empty the queue.
drains :
    (capacity n : ℕ) (queue sent printed : List CanMsg)
    → length queue ≤ n
    → Brings
        (run_echo capacity
          (replicate n polled)
          (record { queue = queue; sent = sent; printed = printed }))
        sent
        (printed ++ queue)
unfolding run_echo
drains capacity zero [] sent printed h = (
  record { queue = []; sent = sent; printed = printed },
  refl,
  refl,
  sym (append-nil printed),
  refl,
)
drains capacity zero (msg ∷ queue) sent printed h = absurd (omega (arith, h))
drains capacity (suc n) [] sent printed h = drains capacity n [] sent printed (omega arith)
drains capacity (suc n) (msg ∷ queue) sent printed h =
    rw (sym (append_assoc printed (msg ∷ []) queue))
      (drains capacity n queue sent (printed ++ (msg ∷ [])) (omega (arith, h)))

run_echo-Brings :
    (capacity : ℕ) (events : List Event) (queue sent printed : List CanMsg)
    → length queue ≤ capacity
    → InTime capacity (length queue) events
    → Brings
        (run_echo capacity
          (events ++ replicate capacity polled)
          (record { queue = queue; sent = sent; printed = printed }))
        (sent ++ arrivals events)
        (printed ++ (queue ++ arrivals events))
unfolding run_echo can_test_msg_received send_to_back
run_echo-Brings capacity [] queue sent printed h t =
    rw (append-nil sent, append-nil queue) (drains capacity capacity queue sent printed h)
run_echo-Brings capacity (arrived msg ret ∷ events) queue sent printed h (good, room, t) =
    let fits : ltb (length queue) capacity ≡ true = ground arith in
    let longer : length (queue ++ (msg ∷ [])) ≡ suc (length queue) =
      omega (arith, length-append queue (msg ∷ [])) in
    rw
      (
        good,
        fits,
        sym (append_assoc sent (msg ∷ []) (arrivals events)),
        sym (append_assoc queue (msg ∷ []) (arrivals events)),
      )
      (run_echo-Brings capacity events (queue ++ (msg ∷ [])) (sent ++ (msg ∷ [])) printed
        (omega (arith, longer, room)) (subst (λ n. InTime capacity n events) (sym longer) t))
run_echo-Brings capacity (polled ∷ events) [] sent printed h t =
    run_echo-Brings capacity events [] sent printed h
      (subst (λ n. InTime capacity n events) (omega arith) t)
run_echo-Brings capacity (polled ∷ events) (msg ∷ queue) sent printed h t =
    rw (sym (append_assoc printed (msg ∷ []) (queue ++ arrivals events))) (
      run_echo-Brings capacity events queue sent (printed ++ (msg ∷ [])) (omega (arith, h))
        (subst (λ n. InTime capacity n events) (omega arith) t))

abbrev pub idle : EchoTest
idle = record { queue = []; sent = []; printed = [] }

-- Where every message can be sent back and finds room in the queue, in any order of interrupts and
-- rounds, then as many rounds as the queue has places bring it about that no assertion has failed and
-- that every message was sent back once and printed once, in the order of arrival.
pub run_echo-arrivals :
    (capacity : ℕ) (events : List Event)
    → InTime capacity 0 events
    → (s : EchoTest) × (run_echo capacity (events ++ replicate capacity polled) idle ≡ some s)
      × (s.sent ≡ arrivals events)
      × (s.printed ≡ arrivals events)
      × (s.queue ≡ [])
run_echo-arrivals capacity events t = run_echo-Brings capacity events [] [] [] (omega arith) t

-- ===== src/Tests/Ring.antt =====
-- The ring's theorems on a ring of two places, alone and between two threads.
use latency_lab.Base.{ℕ, ◌≡◌, refl, ◌<◌, ◌≢◌, inr, true, false, List, [], ◌∷◌, ◌++◌, length, arith}
use latency_lab.SpscRingBuffer.{Ring, increment, new, push, pop}
use latency_lab.SpscRingBuffer.Window.{IsValid, contents, used}
use latency_lab.SpscRingBuffer.Queue.{enqueue, dequeue}
use latency_lab.SpscRingBuffer.Calls.{
  Call, push_call, pop_call, empty_call, pushed, popped, emptied, ring_answers, queue_answers,
  ring_answers_lem,
}
use latency_lab.SpscRingBuffer.Threads.{Event, start, produce, consume, step, run, initial}
use latency_lab.SpscRingBuffer.Safety.{after, run_fifo, run_race_free}

-- The items 8 and 9 round the end of the buffer.
abbrev wrapped : Ring ℕ
wrapped = record { slots = 3; buffer = 9 ∷ 7 ∷ 8 ∷ []; head = 1; tail = 2 }

wrapped-IsValid : IsValid wrapped
wrapped-IsValid = omega arith

wrapped-contents : contents 0 wrapped ≡ 8 ∷ 9 ∷ []
unfolding used increment
wrapped-contents = refl

wrapped_runs :
    (push wrapped 5 ≡ (false, wrapped)) × (pop wrapped 0 ≡ (true, 8, record wrapped { tail = 0 }))
unfolding push pop increment
wrapped_runs = (refl, refl)

-- The third push finds no room.
abbrev calls : List (Call ℕ)
calls =
    pop_call 0
    ∷ push_call 4
    ∷ push_call 6
    ∷ push_call 5
    ∷ empty_call
    ∷ pop_call 0
    ∷ push_call 5
    ∷ pop_call 0
    ∷ []

ring_answers_lem_example : ring_answers (new 2 0) calls ≡ queue_answers 2 [] calls
ring_answers_lem_example = ring_answers_lem 0 2 calls (omega arith)

calls_answered :
    queue_answers 2 [] calls
    ≡ popped false 0
      ∷ pushed true
      ∷ pushed true
      ∷ pushed false
      ∷ emptied false
      ∷ popped true 4
      ∷ pushed true
      ∷ popped true 6
      ∷ []
unfolding queue_answers enqueue dequeue
calls_answered = refl

-- The producer is about to write its second item while the consumer takes the first.
abbrev schedule : List (Event ℕ)
schedule =
    start 4 ∷ produce ∷ produce ∷ produce ∷ start 6 ∷ consume ∷ produce ∷ consume ∷ consume ∷ []

run_fifo_example :
    (after 0 2 schedule).sent
    ≡ (after 0 2 schedule).received ++ contents 0 (after 0 2 schedule).ring
run_fifo_example = run_fifo 0 2 schedule (omega arith)

schedule_sent : (after 0 2 schedule).sent ≡ 4 ∷ []
unfolding run step initial new increment
schedule_sent = refl

run_race_free_example :
    (1 < length (after 0 2 schedule).ring.buffer)
    × (0 < length (after 0 2 schedule).ring.buffer)
    × (◌≢◌ {A = ℕ} 1 0)
unfolding run step initial new increment
run_race_free_example = run_race_free 0 2 schedule 6 1 0 (omega arith) refl (inr (4, refl))

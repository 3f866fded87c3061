-- ===== src/Tests/Threads.antt =====
-- The program over the mutex queue, and the two counting threads, on schedules.
use latency_lab.Base.{
  ℕ, ◌+◌, ◌*◌, ◌%◌, ◌^◌, ◌≤◌, ◌≡◌, refl, min, inr, List, [], ◌∷◌, length, replicate, arith,
}
use latency_lab.Base.Int.{ℤ, pos, negsuc}
use latency_lab.OrderBook
use latency_lab.OrderBook.{OrderBook}
use latency_lab.Generator.{new, generate_one, generate_from, generate}
use latency_lab.Generator.Ranges.{generated, length-generated}
use latency_lab.MutexQueue
use latency_lab.MutexQueue.{can_push, can_pop, push_with_mutation, pop, close}
use latency_lab.Worker.{Readings}
use latency_lab.Worker.Latencies.{HasWorked}
use latency_lab.ProducerConsumer.{
  Event, producer, consumer, spurious_push, spurious_pop, produce, consume, step, run, initial,
}
use latency_lab.ProducerConsumer.Sound.{at_start, run_complete}
use latency_lab.ProducerConsumer.Live.{turns, after, BothEnded, after_not_stuck, turns_finish}
use latency_lab.FalseSharing.{Thread, first_thread, second_thread}
use latency_lab.FalseSharing.Totals
use latency_lab.FalseSharing.Totals.{steps_of, counters_lem}
use latency_lab.Message.{MarketMessage}
use latency_lab.Tests.Benchmarks.{clock, aapl}
use latency_lab.Tests.Pipeline.{blank, at_time}

abbrev messages : List MarketMessage
messages = generated clock 2 aapl

-- Two messages over one place. The consumer sleeps and wakes for no reason, and so does the producer, which finds
-- the queue full.
abbrev schedule : List Event
schedule =
    consumer (at_time 1)
    ∷ spurious_pop
    ∷ consumer (at_time 2)
    ∷ producer 3 (pos 0)
    ∷ producer 4 (pos 0)
    ∷ producer 5 (pos 0)
    ∷ producer 6 (pos 1)
    ∷ spurious_push
    ∷ producer 7 (pos 1)
    ∷ consumer (at_time 8)
    ∷ producer 13 (pos 1)
    ∷ producer 14 (pos 1)
    ∷ producer 15 (pos 1)
    ∷ producer 16 (pos 1)
    ∷ consumer (at_time 17)
    ∷ consumer (at_time 22)
    ∷ []

schedule_ends :
    BothEnded (after OrderBook.on_message messages OrderBook.new 1 blank (pos 0) (pos 2) schedule)
unfolding run step produce consume initial MutexQueue.new can_push can_pop push_with_mutation pop
    close MutexQueue.is_empty generate generate_from generate_one new
schedule_ends = (refl, refl)

run_complete_example :
    let p =
      run OrderBook.on_message
        (at_start OrderBook.on_message messages OrderBook.new 1 blank (pos 0) (pos 2))
        schedule in
    HasWorked OrderBook.on_message OrderBook.new messages p.worker
    × (p.produced ≡ length messages % 2 ^ 64)
run_complete_example =
    run_complete OrderBook.on_message messages OrderBook.new 1 blank (pos 0) (pos 2) schedule
      schedule_ends.1

after_not_stuck_example :
    BothEnded (after OrderBook.on_message messages OrderBook.new 1 blank (pos 0) (pos 2) schedule)
after_not_stuck_example =
    after_not_stuck OrderBook.on_message messages OrderBook.new 1 blank (pos 0) (pos 2) schedule
      (omega arith) (inr schedule_ends.0) (inr schedule_ends.1)

-- Fifteen rounds.
abbrev pub rounds : List (ℕ × ℤ × Readings)
rounds = replicate 15 (3, pos 0, at_time 5)

enough_rounds : 5 * length messages + 5 ≤ length rounds
enough_rounds = omega (arith, length-generated clock 2 aapl)

turns_finish_example :
    let p =
      after OrderBook.on_message messages OrderBook.new 1 blank (pos 0) (pos 2) (turns rounds) in
    BothEnded p × HasWorked OrderBook.on_message OrderBook.new messages p.worker
turns_finish_example =
    turns_finish OrderBook.on_message messages OrderBook.new 1 blank (pos 0) (pos 2) rounds
      (omega arith) enough_rounds

abbrev counting : List (Thread × ℤ)
counting =
    (first_thread, pos 0)
    ∷ (second_thread, pos 3)
    ∷ (first_thread, pos 1)
    ∷ (first_thread, pos 1)
    ∷ (first_thread, negsuc 0)
    ∷ []

counters_lem_example :
    let c = Totals.after 3 (pos 0) (pos 2) counting in
    (c.counters.first ≡ min 3 (steps_of first_thread counting))
    × (c.counters.second ≡ min 3 (steps_of second_thread counting))
    × (c.first_loop.cpu.migrations * 4096 ≤ c.counters.first + 4095)
    × (c.second_loop.cpu.migrations * 4096 ≤ c.counters.second + 4095)
counters_lem_example = counters_lem 3 (pos 0) (pos 2) counting (omega arith)

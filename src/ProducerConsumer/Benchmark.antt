-- ===== src/ProducerConsumer/Benchmark.antt =====
-- `main` of apps/benchmark_producer_consumer.cpp, from the generated messages to the last book.
use latency_lab.Base.{ℕ, ◌+◌, ◌*◌, ◌<◌, ◌≤◌, ◌≡◌, ◌∙◌, some, List, [], length}
use latency_lab.Base.Int.{ℤ}
use latency_lab.OrderBook
use latency_lab.OrderBook.{OrderBook}
use latency_lab.OrderBook.Represents.{Represents}
use latency_lab.Resting.{apply_all}
use latency_lab.Generator.Ranges.{generated}
use latency_lab.Generator.Safe.{generated_feed_defined}
use latency_lab.Worker.{MarketMessageEnvelope, Readings}
use latency_lab.Worker.Fold.{fold-process}
use latency_lab.ProducerConsumer.{ended, finished, Program, Event, run, initial}
use latency_lab.ProducerConsumer.Live.{turns, turns_finish}

module _ (clock : ℕ → ℕ) (blank : MarketMessageEnvelope) (num_messages : ℕ) (symbol : List ℕ)
    (queue_capacity : ℕ) (producer_cpu consumer_cpu : ℤ) where
  -- The program up to a point of a schedule.
  abbrev pub producer_consumer : List Event → Program OrderBook
  producer_consumer es =
      run OrderBook.on_message
        (initial queue_capacity blank (generated clock num_messages symbol) OrderBook.new
          producer_cpu consumer_cpu)
        es

  -- With room for an item in the queue and threads that take turns, for five rounds for each
  -- generated message and five more, the program comes to the end of both threads, with a book that
  -- is defined and represents the orders that the generated messages make.
  pub producer_consumer-Represents :
      (rs : List (ℕ × ℤ × Readings))
      → 0 < queue_capacity
      → 5 * length (generated clock num_messages symbol) + 5 ≤ length rs
      → let p = producer_consumer (turns rs) in
        (p.producer ≡ ended)
        × (p.consumer ≡ finished)
        × ((b : OrderBook) × (p.worker.book ≡ some b)
            × Represents b (apply_all (generated clock num_messages symbol) []))
  producer_consumer-Represents rs h enough =
      let msgs = generated clock num_messages symbol in
      let (b, runs, holds) = generated_feed_defined clock num_messages symbol in
      let (both, worked) =
        turns_finish OrderBook.on_message msgs OrderBook.new queue_capacity blank producer_cpu
          consumer_cpu rs h enough in
      (both.0, both.1, (b, worked.book ∙ fold-process OrderBook.new msgs ∙ runs, holds))

-- ===== src/Pipeline/Benchmarks.antt =====
-- The two programs over the ring: apps/benchmark_spsc_queue.cpp on the plain book and
-- apps/benchmark_spsc_queue_pooled.cpp on the pooled one, from the generated messages to the last book.
use latency_lab.Base.{ℕ, min, ◌+◌, ◌<◌, ◌≤◌, ◌≡◌, ◌∙◌, some, List, []}
use latency_lab.SpscRingBuffer.{size_mod}
use latency_lab.SpscRingBuffer
use latency_lab.OrderBook
use latency_lab.OrderBook.{OrderBook}
use latency_lab.OrderBook.Represents.{Represents}
use latency_lab.PooledOrderBook
use latency_lab.PooledOrderBook.{PooledOrderBook}
use latency_lab.PooledOrderBook.Agree.{Agree}
use latency_lab.Resting.{apply_all}
use latency_lab.Generator.Ranges.{generated}
use latency_lab.Generator.Safe.{generated_feed_defined}
use latency_lab.Generator.Pooled.{generated_feed-Agree}
use latency_lab.Base.Int.{ℤ}
use latency_lab.Worker.{MarketMessageEnvelope}
use latency_lab.Pipeline.{finished, Pipeline, Event, run, initial}
use latency_lab.Worker.Fold.{fold-process, fold-pooled_process}
use latency_lab.Pipeline.Complete.{after_complete}

module _ (clock : ℕ → ℕ) (blank : MarketMessageEnvelope) (num_messages : ℕ) (symbol : List ℕ)
    (queue_capacity : ℕ) (producer_cpu consumer_cpu : ℤ) where
  -- `main` of apps/benchmark_spsc_queue.cpp, up to a point of a schedule.
  abbrev pub spsc_queue : List Event → Pipeline OrderBook
  spsc_queue es =
      run OrderBook.on_message
        (initial (SpscRingBuffer.new queue_capacity blank) blank
          (generated clock num_messages symbol) OrderBook.new producer_cpu consumer_cpu)
        es

  -- `main` of apps/benchmark_spsc_queue_pooled.cpp, up to a point of a schedule.
  abbrev pub spsc_queue_pooled : ℕ → List Event → Pipeline PooledOrderBook
  spsc_queue_pooled pool_capacity es =
      run PooledOrderBook.on_message
        (initial (SpscRingBuffer.new queue_capacity blank) blank
          (generated clock num_messages symbol) (PooledOrderBook.new pool_capacity) producer_cpu
          consumer_cpu)
        es

  -- In the program over the ring and the plain book, whose ring has fewer than 2^64 slots: after
  -- any schedule that has brought the consumer to the end of its loop, the book is defined and
  -- represents the orders that the generated messages make.
  pub spsc_queue-Represents :
      (es : List Event)
      → queue_capacity + 1 < size_mod
      → (spsc_queue es).consumer ≡ finished
      → (b : OrderBook) × ((spsc_queue es).worker.book ≡ some b)
        × Represents b (apply_all (generated clock num_messages symbol) [])
  spsc_queue-Represents es h e =
      let msgs = generated clock num_messages symbol in
      let (b, runs, holds) = generated_feed_defined clock num_messages symbol in
      let (done, _) =
        after_complete OrderBook.on_message blank msgs OrderBook.new queue_capacity producer_cpu
          consumer_cpu es h e in
      (b, done.book ∙ fold-process OrderBook.new msgs ∙ runs, holds)

  -- For the two programs over the ring, with fewer than 2^64 slots of the ring and at least 10000
  -- of the pool, or one for each message: after any two schedules that have brought the consumers to the end of their loops,
  -- both books are defined and agree on all that they show.
  pub spsc_queue-Agree :
      (pool_capacity : ℕ) (es es' : List Event)
      → queue_capacity + 1 < size_mod
      → min 10000 num_messages ≤ pool_capacity
      → (spsc_queue es).consumer ≡ finished
      → (spsc_queue_pooled pool_capacity es').consumer ≡ finished
      → (b : OrderBook) × (b' : PooledOrderBook) × ((spsc_queue es).worker.book ≡ some b)
        × ((spsc_queue_pooled pool_capacity es').worker.book ≡ some b')
        × Agree b b'
  spsc_queue-Agree pool_capacity es es' h enough e e' =
      let msgs = generated clock num_messages symbol in
      let (b, b', runs, runs', agree) =
        generated_feed-Agree clock num_messages symbol pool_capacity enough in
      let (done, _) =
        after_complete OrderBook.on_message blank msgs OrderBook.new queue_capacity producer_cpu
          consumer_cpu es h e in
      let (done', _) =
        after_complete PooledOrderBook.on_message blank msgs (PooledOrderBook.new pool_capacity)
          queue_capacity producer_cpu consumer_cpu es' h e' in
      (
        b,
        b',
        done.book ∙ fold-process OrderBook.new msgs ∙ runs,
        done'.book ∙ fold-pooled_process (PooledOrderBook.new pool_capacity) msgs ∙ runs',
        agree,
      )

-- ===== src/Report.antt =====
-- What the programs under apps print when their threads have ended, as values: the lines in their order,
-- without their headings. The arithmetic of `double` is the parameter of Metrics.
pub mod Defined
pub mod Programs
use latency_lab.Base.{
  ℕ, ◌+◌, ◌-◌, ◌*◌, ◌%◌, ◌^◌, List, [], ◌∷◌, ◌++◌, length, Option, none, some, ◌>>=◌,
}
use latency_lab.Base.Int.{ℤ}
use latency_lab.Message.{MarketMessage}
use latency_lab.Level.{PriceLevel}
use latency_lab.Metrics.{Doubles, Summary, LatencyRecorder, print_summary}
use latency_lab.OrderBook
use latency_lab.OrderBook.{OrderBook}
use latency_lab.PooledOrderBook
use latency_lab.PooledOrderBook.{PooledOrderBook}
use latency_lab.Worker.{Worker, sub64}
use latency_lab.Feed.{FeedWorker}
use latency_lab.Pipeline.{Pipeline}
use latency_lab.ProducerConsumer
use latency_lab.UdpFeed
use latency_lab.TcpFeed.{Sender, Receiver}
use latency_lab.FalseSharing.{Case}

-- What a line is about.
pub data Label : Type 0 where
  messages produced consumed dropped total_time throughput : Label
  producer_spins consumer_spins producer_migrations consumer_migrations : Label
  pipeline_latency queue_wait book_processing network_to_book latency : Label
  pool_allocations pool_deallocations pool_available pool_exhaustions : Label
  total_orders buy_side_levels sell_side_levels best_bid best_ask : Label
  iterations first_counter second_counter first_migrations second_migrations : Label

pub data Line (D : Type 0) : Type 0 where
  number : Label → ℕ → Line D
  real : Label → D → Line D
  summary : Label → Summary D → Line D
  level : Label → (price : ℤ) (total_quantity : ℕ) → Line D

-- What a program asks its book for at the end; `pool` are the lines that only the pooled book has.
pub record Shown (B : Type 0) : Type 0 where
  pub show_orders : B → ℕ
  pub show_buy_levels : B → ℕ
  pub show_sell_levels : B → ℕ
  pub show_bid : B → Option PriceLevel
  pub show_ask : B → Option PriceLevel
  pub pool : B → List (Label × ℕ)

abbrev pub plain : Shown OrderBook
plain = record {
  show_orders = OrderBook.total_orders;
  show_buy_levels = OrderBook.buy_side_levels;
  show_sell_levels = OrderBook.sell_side_levels;
  show_bid = OrderBook.best_bid;
  show_ask = OrderBook.best_ask;
  pool = λ b. [];
}

abbrev pub pooled : Shown PooledOrderBook
pooled = record {
  show_orders = PooledOrderBook.total_orders;
  show_buy_levels = PooledOrderBook.buy_side_levels;
  show_sell_levels = PooledOrderBook.sell_side_levels;
  show_bid = PooledOrderBook.best_bid;
  show_ask = PooledOrderBook.best_ask;
  pool = λ b.
      (pool_allocations, PooledOrderBook.pool_allocations b)
      ∷ (pool_deallocations, PooledOrderBook.pool_deallocations b)
      ∷ (pool_available, PooledOrderBook.pool_available b)
      ∷ (pool_exhaustions, PooledOrderBook.exhaustions b)
      ∷ [];
}

-- `p` is the literal `99.9`.
module _ {D : Type 0} (d : Doubles D) (p : D) where
  abbrev pub level_line : Label → Option PriceLevel → List (Line D)
  level_line label none = []
  level_line label (some l) = level label l.price l.total_quantity ∷ []

  -- The state of the book, as every program prints it.
  unfoldable pub final_book_state : {B : Type 0} → Shown B → B → List (Line D)
  final_book_state shown b =
      number total_orders (shown.show_orders b)
      ∷ number buy_side_levels (shown.show_buy_levels b)
      ∷ number sell_side_levels (shown.show_sell_levels b)
      ∷ (level_line best_bid (shown.show_bid b) ++ level_line best_ask (shown.show_ask b))

  abbrev pub numbers : List (Label × ℕ) → List (Line D)
  numbers [] = []
  numbers ((label, n) ∷ rest) = number label n ∷ numbers rest

  -- The time in seconds and the throughput, for a number of messages and a time in ns.
  unfoldable pub rates : ℕ → ℕ → List (Line D)
  rates count total_duration_ns =
      let throughput_msg_per_sec =
        d.mul (d.div (d.of_u64 count) (d.of_u64 total_duration_ns)) (d.of_u64 (10 ^ 9)) in
      real total_time (d.div (d.of_u64 total_duration_ns) (d.of_u64 (10 ^ 9)))
      ∷ real throughput (d.div throughput_msg_per_sec (d.of_u64 (10 ^ 6)))
      ∷ []

  -- `none` where print_summary reads past the end of a vector, or the book is undefined.
  abbrev pub worker_lines :
      {B : Type 0} → Shown B → List (Line D) → Worker B → Option (List (Line D))
  worker_lines shown front w = do
    book ← w.book
    pipeline ← print_summary d p w.pipeline_latency
    wait ← print_summary d p w.queue_wait
    processing ← print_summary d p w.book_processing
    some (
        front
        ++ (numbers (shown.pool book)
            ++ (summary pipeline_latency pipeline
                ∷ summary queue_wait wait
                ∷ summary book_processing processing
                ∷ final_book_state shown book)))

  -- The programs over the ring, behind the counters of their threads.
  abbrev pub spsc_rates : {B : Type 0} → ℕ → Pipeline B → List (Line D)
  spsc_rates total_duration_ns q =
      rates q.worker.consumed total_duration_ns
      ++ (number producer_spins q.producer_spins
          ∷ number consumer_spins q.consumer_spins
          ∷ number producer_migrations q.producer_cpu.migrations
          ∷ number consumer_migrations q.worker.cpu.migrations
          ∷ [])

  unfoldable pub spsc_report : {B : Type 0} → Shown B → ℕ → Pipeline B → Option (List (Line D))
  spsc_report shown total_duration_ns q =
      worker_lines shown
        (number produced q.produced
          ∷ number consumed q.worker.consumed
          ∷ spsc_rates total_duration_ns q)
        q.worker

  -- The program over the mutex queue, behind the counters of its threads.
  abbrev pub producer_consumer_rates : ℕ → ProducerConsumer.Program OrderBook → List (Line D)
  producer_consumer_rates total_duration_ns q =
      rates q.worker.consumed total_duration_ns
      ++ (number producer_migrations q.producer_cpu.migrations
          ∷ number consumer_migrations q.worker.cpu.migrations
          ∷ [])

  unfoldable pub producer_consumer_report :
      ℕ → ProducerConsumer.Program OrderBook → Option (List (Line D))
  producer_consumer_report total_duration_ns q =
      worker_lines plain
        (number produced q.produced
          ∷ number consumed q.worker.consumed
          ∷ producer_consumer_rates total_duration_ns q)
        q.worker

  abbrev feed_lines : List (Line D) → FeedWorker OrderBook → Option (List (Line D))
  feed_lines front w = do
    book ← w.book
    arrival ← print_summary d p w.network_to_book
    processing ← print_summary d p w.book_processing
    some (
        front
        ++ (summary network_to_book arrival
            ∷ summary book_processing processing
            ∷ final_book_state plain book))

  unfoldable pub tcp_report :
      {S R : Type 0} → ℕ → Sender S → Receiver OrderBook R → Option (List (Line D))
  tcp_report total_duration_ns sender receiver =
      feed_lines
        (number produced sender.produced
          ∷ number consumed receiver.worker.consumed
          ∷ (rates receiver.worker.consumed total_duration_ns
              ++ (number producer_migrations sender.cpu.migrations
                  ∷ number consumer_migrations receiver.worker.cpu.migrations
                  ∷ [])))
        receiver.worker

  -- The number of lost messages is a difference of 64-bit words.
  unfoldable pub udp_report : ℕ → UdpFeed.Program OrderBook → Option (List (Line D))
  udp_report total_duration_ns q =
      feed_lines
        (number produced q.produced
          ∷ number consumed q.worker.consumed
          ∷ number dropped (sub64 q.produced q.worker.consumed)
          ∷ (rates q.worker.consumed total_duration_ns
              ++ (number producer_migrations q.producer_cpu.migrations
                  ∷ number consumer_migrations q.worker.cpu.migrations
                  ∷ [])))
        q.worker

  -- `run_case` of apps/benchmark_memory_pool.cpp.
  unfoldable pub case_report :
      {B : Type 0} → Shown B → ℕ → ℕ → B × LatencyRecorder → Option (List (Line D))
  case_report shown total_duration_ns num_messages s = do
    times ← print_summary d p s.1
    some (
        number messages num_messages
        ∷ (rates num_messages total_duration_ns
            ++ (summary latency times ∷ (numbers (shown.pool s.0) ++ final_book_state shown s.0))))

  -- The end of main of apps/benchmark_single_thread.cpp, which prints the same.
  unfoldable pub single_thread_report : ℕ → ℕ → OrderBook × LatencyRecorder → Option (List (Line D))
  single_thread_report total_duration_ns num_messages s =
      case_report plain total_duration_ns num_messages s

  -- One batch size of apps/benchmark_batching.cpp.
  unfoldable pub batch_report : ℕ → ℕ → OrderBook × LatencyRecorder → Option (List (Line D))
  batch_report total_duration_ns num_messages s = do
    times ← print_summary d p s.1
    some (
        rates num_messages total_duration_ns
        ++ (summary latency times
            ∷ number total_orders (OrderBook.total_orders s.0)
            ∷ number buy_side_levels (OrderBook.buy_side_levels s.0)
            ∷ number sell_side_levels (OrderBook.sell_side_levels s.0)
            ∷ []))

  -- `run_case` of apps/benchmark_false_sharing.cpp.
  unfoldable pub false_sharing_report : ℕ → ℕ → Case → List (Line D)
  false_sharing_report num_iterations elapsed_ns c =
      let total_operations = d.mul (d.of_u64 num_iterations) (d.of_u64 2) in
      let throughput_ops_per_sec =
        d.mul (d.div total_operations (d.of_u64 elapsed_ns)) (d.of_u64 (10 ^ 9)) in
      number iterations num_iterations
      ∷ real total_time (d.div (d.of_u64 elapsed_ns) (d.of_u64 (10 ^ 9)))
      ∷ real throughput (d.div throughput_ops_per_sec (d.of_u64 (10 ^ 6)))
      ∷ number first_counter c.counters.first
      ∷ number second_counter c.counters.second
      ∷ number first_migrations c.first_loop.cpu.migrations
      ∷ number second_migrations c.second_loop.cpu.migrations
      ∷ []

-- ===== src/Report/Defined.antt =====
-- The reports are printed whole, and those of the two programs over the ring show the same book.
use latency_lab.Base.{
  ℕ, min, ◌+◌, ◌%◌, ◌^◌, ◌<◌, ◌≤◌, ◌≡◌, refl, sym, ◌∙◌, ap, ap₂, subst, List, [], ◌∷◌, ◌++◌, length,
  Option, some, some_eq, arith,
}
use mathlib.Core.List.{append_assoc}
use latency_lab.Base.Int.{ℤ}
use latency_lab.Message.{MarketMessage}
use latency_lab.SpscRingBuffer.{size_mod}
use latency_lab.Metrics.{Doubles, Summary, print_summary}
use latency_lab.Metrics.Percentiles.{print_summary_ends}
use latency_lab.OrderBook
use latency_lab.OrderBook.{OrderBook}
use latency_lab.PooledOrderBook
use latency_lab.PooledOrderBook.{PooledOrderBook}
use latency_lab.PooledOrderBook.Agree.{Agree}
use latency_lab.Generator.Ranges.{generated, length-generated}
use latency_lab.OrderBook.Represents.{Represents}
use latency_lab.Resting.{apply_all}
use latency_lab.Generator.Safe.{generated_feed_defined}
use latency_lab.Generator.Pooled.{generated_feed-Agree}
use latency_lab.Worker.{MarketMessageEnvelope, Worker}
use latency_lab.Worker.Fold.{fold-process, fold-pooled_process}
use latency_lab.Worker.Latencies.{HasWorked}
use latency_lab.Pipeline.{Event, finished}
use latency_lab.Pipeline.Complete.{after_complete}
use latency_lab.Pipeline.Benchmarks.{spsc_queue, spsc_queue_pooled}
use latency_lab.Report.{
  produced, consumed, Line, number, Shown, plain, pooled, final_book_state, spsc_report, spsc_rates,
  worker_lines, numbers, level_line, summary, total_orders, buy_side_levels, sell_side_levels,
  best_bid, best_ask, pipeline_latency, queue_wait, book_processing,
}

module _ {D : Type 0} (d : Doubles D) (p : D) where
  -- The percentages are at most 100.
  abbrev pub ArePercentages : Type 0
  ArePercentages =
      d.AtMost (d.of_u64 50) (d.of_u64 100)
      × d.AtMost (d.of_u64 90) (d.of_u64 100)
      × d.AtMost (d.of_u64 99) (d.of_u64 100)
      × d.AtMost p (d.of_u64 100)

  summary_defined :
      (samples : List ℕ)
      → ArePercentages
      → length samples < 2 ^ 53
      → (s : Summary D) × (print_summary d p (record { samples = samples }) ≡ some s)
  unfolding print_summary
  summary_defined [] v h = (_, refl)
  summary_defined (x ∷ xs) v h =
      let (_, _, _, _, e) = print_summary_ends d p (x ∷ xs) (omega arith) h v.0 v.1 v.2 v.3 in
      (_, e)

  -- The lines of a consumer that has worked through fewer than 2^53 messages: `front` is printed first, the
  -- state of the book last.
  worker_lines_defined :
      {B : Type 0} (on_message : B → MarketMessage → Option B) (shown : Shown B)
      (front : List (Line D)) (start b : B) (passed : List MarketMessage) (w : Worker B)
      → ArePercentages
      → length passed < 2 ^ 53
      → HasWorked on_message start passed w
      → w.book ≡ some b
      → (middle : List (Line D)) × (worker_lines d p shown front w
          ≡ some (front ++ (middle ++ final_book_state d p shown b)))
  worker_lines_defined on_message shown front start b passed w v h has e =
      let (s₁, e₁) =
        summary_defined w.pipeline_latency.samples v (omega (arith, h, has.latencies)) in
      let (s₂, e₂) = summary_defined w.queue_wait.samples v (omega (arith, h, has.waits)) in
      let (s₃, e₃) =
        summary_defined w.book_processing.samples v (omega (arith, h, has.processings)) in
      let sums =
        summary pipeline_latency s₁ ∷ summary queue_wait s₂ ∷ summary book_processing s₃ ∷ [] in
      let pool = numbers d p (shown.pool b) in
      rw (e, e₁, e₂, e₃)
        (
          pool ++ sums,
          ap (λ xs. some (front ++ xs))
              (sym (append_assoc pool sums (final_book_state d p shown b))),
        )

  -- What the queries of a plain book answer, as lines.
  abbrev pub book_lines : OrderBook → List (Line D)
  book_lines b =
      number total_orders (OrderBook.total_orders b)
      ∷ number buy_side_levels (OrderBook.buy_side_levels b)
      ∷ number sell_side_levels (OrderBook.sell_side_levels b)
      ∷ (level_line d p best_bid (OrderBook.best_bid b)
          ++ level_line d p best_ask (OrderBook.best_ask b))

  final_book_state-plain : (b : OrderBook) → final_book_state d p plain b ≡ book_lines b
  unfolding final_book_state
  final_book_state-plain b = refl

  -- A pooled book is printed like the plain book with which it agrees.
  final_book_state-pooled :
      (b : OrderBook) (b' : PooledOrderBook)
      → Agree b b'
      → final_book_state d p pooled b' ≡ book_lines b
  unfolding final_book_state
  final_book_state-pooled b b' v = rw (v.orders, v.buy_levels, v.sell_levels, v.bids, v.asks) refl

  -- A report begins with the counters of both threads, `n` each, and ends with the lines `state`.
  abbrev pub Reports : ℕ → List (Line D) → Option (List (Line D)) → Type 0
  Reports n state report =
      (middle : List (Line D)) × (report
        ≡ some (number produced n ∷ number consumed n ∷ (middle ++ state)))

  pub worker_lines-Reports :
      {B : Type 0} (on_message : B → MarketMessage → Option B) (shown : Shown B) (start b : B)
      (messages : List MarketMessage) (sent : ℕ) (more : List (Line D)) (w : Worker B)
      → ArePercentages
      → length messages < 2 ^ 53
      → HasWorked on_message start messages w
      → sent ≡ length messages % 2 ^ 64
      → w.book ≡ some b
      → Reports
          (length messages)
          (final_book_state d p shown b)
          (worker_lines d p shown (number produced sent ∷ number consumed w.consumed ∷ more) w)
  worker_lines-Reports on_message shown start b messages sent more w v h has sent_all e =
      let front = number produced sent ∷ number consumed w.consumed ∷ more in
      let (middle, lines) =
        worker_lines_defined on_message shown front start b messages w v h has e in
      let state = final_book_state d p shown b in
      let sent_n : sent ≡ length messages = omega (arith, sent_all, h) in
      let consumed_n : w.consumed ≡ length messages = omega (arith, has.consumed, h) in
      (
        more ++ middle,
        lines
            ∙ ap₂
                (λ x y. some (number produced x ∷ number consumed y ∷ (more ++ (middle ++ state))))
                sent_n consumed_n
            ∙ ap
                (λ xs.
                  some (number produced (length messages) ∷ number consumed (length messages) ∷ xs))
                (sym (append_assoc more middle state)),
      )

  module _ (clock : ℕ → ℕ) (blank : MarketMessageEnvelope) (num_messages : ℕ) (symbol : List ℕ)
      (queue_capacity : ℕ) (producer_cpu consumer_cpu : ℤ) where
    book_of_feed :
        (b : OrderBook)
        → OrderBook.process OrderBook.new (generated clock num_messages symbol) ≡ some b
        → Represents b (apply_all (generated clock num_messages symbol) [])
    book_of_feed b runs =
        let (b₀, runs₀, holds) = generated_feed_defined clock num_messages symbol in
        subst (λ x. Represents x (apply_all (generated clock num_messages symbol) []))
          (some_eq (sym runs₀ ∙ runs)) holds

    -- For the two programs over the ring, with fewer than 2^53 messages, fewer than 2^64 slots of
    -- the ring, a slot of the pool for each message, or at least 10000, and percentages of at most
    -- 100: after any two schedules that have brought the consumers to the end of their loops, both
    -- programs print their reports to the end, whatever time they took; both begin with all
    -- messages produced and all consumed. The plain book represents the orders that the generated
    -- messages make, and both reports end with what its queries answer: the number of orders, the
    -- numbers of levels, the best bid and the best ask, each where there is one.
    pub spsc_report-Agree :
        (pool_capacity total_duration_ns total_duration_ns' : ℕ) (es es' : List Event)
        → ArePercentages
        → num_messages < 2 ^ 53
        → queue_capacity + 1 < size_mod
        → min 10000 num_messages ≤ pool_capacity
        → let q =
            spsc_queue clock blank num_messages symbol queue_capacity producer_cpu consumer_cpu
              es in
          let q' =
            spsc_queue_pooled clock blank num_messages symbol queue_capacity producer_cpu
              consumer_cpu pool_capacity es' in
          (q.consumer ≡ finished)
          → (q'.consumer ≡ finished)
          → (b : OrderBook) × (b' : PooledOrderBook) × (q.worker.book ≡ some b)
            × (q'.worker.book ≡ some b')
            × Represents b (apply_all (generated clock num_messages symbol) [])
            × Reports num_messages (book_lines b) (spsc_report d p plain total_duration_ns q)
            × Reports num_messages (book_lines b) (spsc_report d p pooled total_duration_ns' q')
    unfolding spsc_report
    spsc_report-Agree pool_capacity ns ns' es es' v few h enough e e' =
        let msgs = generated clock num_messages symbol in
        let size = length-generated clock num_messages symbol in
        let (b, b', runs, runs', agree) =
          generated_feed-Agree clock num_messages symbol pool_capacity enough in
        let (done, sent) =
          after_complete OrderBook.on_message blank msgs OrderBook.new queue_capacity producer_cpu
            consumer_cpu es h e in
        let (done', sent') =
          after_complete PooledOrderBook.on_message blank msgs (PooledOrderBook.new pool_capacity)
            queue_capacity producer_cpu consumer_cpu es' h e' in
        let few' : length msgs < 2 ^ 53 = omega (arith, few, size) in
        let q =
          spsc_queue clock blank num_messages symbol queue_capacity producer_cpu consumer_cpu es in
        let q' =
          spsc_queue_pooled clock blank num_messages symbol queue_capacity producer_cpu consumer_cpu
            pool_capacity es' in
        let has = done.book ∙ fold-process OrderBook.new msgs ∙ runs in
        let has' =
          done'.book ∙ fold-pooled_process (PooledOrderBook.new pool_capacity) msgs ∙ runs' in
        (
          b,
          b',
          has,
          has',
          book_of_feed b runs,
          subst (λ n. Reports n (book_lines b) (spsc_report d p plain ns q)) size
              (subst (λ state. Reports (length msgs) state (spsc_report d p plain ns q))
                (final_book_state-plain b)
                (worker_lines-Reports OrderBook.on_message plain OrderBook.new b msgs q.produced
                  (spsc_rates d p ns q) q.worker v few' done sent has)),
          subst (λ n. Reports n (book_lines b) (spsc_report d p pooled ns' q')) size
              (subst (λ state. Reports (length msgs) state (spsc_report d p pooled ns' q'))
                (final_book_state-pooled b b' agree)
                (worker_lines-Reports PooledOrderBook.on_message pooled
                  (PooledOrderBook.new pool_capacity) b' msgs q'.produced (spsc_rates d p ns' q')
                  q'.worker v few' done' sent' has')),
        )

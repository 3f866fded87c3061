-- ===== src/Report/Programs.antt =====
-- The reports of the program over the mutex queue and of the UDP feed.
use latency_lab.Base.{ℕ, ◌+◌, ◌*◌, ◌^◌, ◌<◌, ◌≤◌, subst, ◌∙◌, List, [], length, arith}
use latency_lab.Base.Int.{ℤ}
use latency_lab.Metrics.{Doubles}
use latency_lab.OrderBook
use latency_lab.OrderBook.{OrderBook}
use latency_lab.OrderBook.Represents.{Represents}
use latency_lab.Resting.{apply_all}
use latency_lab.Generator.Ranges.{generated, length-generated}
use latency_lab.Generator.Safe.{generated_feed_defined}
use latency_lab.Worker.{MarketMessageEnvelope, Readings}
use latency_lab.Worker.Fold.{fold-process}
use latency_lab.ProducerConsumer.Live.{turns, BothEnded, turns_finish}
use latency_lab.ProducerConsumer.Sound.{run_complete}
use latency_lab.ProducerConsumer.Benchmark.{producer_consumer}
use latency_lab.Report.{plain, final_book_state, producer_consumer_rates, producer_consumer_report}
use latency_lab.Report.Defined.{ArePercentages, Reports, worker_lines-Reports}

module _ {D : Type 0} (d : Doubles D) (p : D) (clock : ℕ → ℕ) (blank : MarketMessageEnvelope)
    (num_messages : ℕ) (symbol : List ℕ) (queue_capacity : ℕ) (producer_cpu consumer_cpu : ℤ) where
  -- For fewer than 2^53 messages, with room for an item in the queue, percentages of at most 100,
  -- and threads that take turns for five rounds for each message and five more: the program comes
  -- to the end of both threads and prints its report to the end, which begins with all messages
  -- produced and all consumed, and ends with the state of a book that represents the orders which
  -- the generated messages make.
  pub producer_consumer-Reports :
      (total_duration_ns : ℕ) (rs : List (ℕ × ℤ × Readings))
      → ArePercentages d p
      → num_messages < 2 ^ 53
      → 0 < queue_capacity
      → 5 * num_messages + 5 ≤ length rs
      → let q =
          producer_consumer clock blank num_messages symbol queue_capacity producer_cpu consumer_cpu
            (turns rs) in
        BothEnded q
        × ((b : OrderBook) × Represents b (apply_all (generated clock num_messages symbol) [])
            × Reports d p num_messages
                (final_book_state d p plain b)
                (producer_consumer_report d p total_duration_ns q))
  unfolding producer_consumer_report
  producer_consumer-Reports ns rs v few room enough =
      let msgs = generated clock num_messages symbol in
      let size = length-generated clock num_messages symbol in
      let q =
        producer_consumer clock blank num_messages symbol queue_capacity producer_cpu consumer_cpu
          (turns rs) in
      let (b, runs, holds) = generated_feed_defined clock num_messages symbol in
      let (both, _) =
        turns_finish OrderBook.on_message msgs OrderBook.new queue_capacity blank producer_cpu
          consumer_cpu rs room (omega (arith, enough, size)) in
      let (worked, sent) =
        run_complete OrderBook.on_message msgs OrderBook.new queue_capacity blank producer_cpu
          consumer_cpu (turns rs) both.1 in
      (
        both,
        (
          b,
          holds,
          subst
              (λ n.
                Reports d p n (final_book_state d p plain b) (producer_consumer_report d p ns q))
              size
              (worker_lines-Reports d p OrderBook.on_message plain OrderBook.new b msgs q.produced
                (producer_consumer_rates d p ns q) q.worker v (omega (arith, few, size)) worked sent
                (worked.book ∙ fold-process OrderBook.new msgs ∙ runs)),
        ),
      )

-- ===== src/Tests/Reports.antt =====
-- The reports of small runs. Whole numbers stand for `double`.
use latency_lab.Base.{Bool, ◌≤◌, ◌+◌, ◌≡◌, some, [], length, arith}
use latency_lab.Base.Int.{pos}
use latency_lab.OrderBook
use latency_lab.OrderBook.{OrderBook}
use latency_lab.OrderBook.Represents.{Represents}
use latency_lab.Resting.{apply_all}
use latency_lab.Message.{MarketMessage}
use latency_lab.Generator.Ranges.{generated}
use latency_lab.Worker.{sub64}
use latency_lab.Pipeline.Benchmarks.{spsc_queue, spsc_queue_pooled}
use latency_lab.ProducerConsumer.Live.{turns, BothEnded}
use latency_lab.ProducerConsumer.Benchmark.{producer_consumer}
use latency_lab.PooledOrderBook.{PooledOrderBook}
use latency_lab.UdpFeed.{initial}
use latency_lab.UdpFeed.Counts.{count_if, IgnoresTime}
use latency_lab.UdpFeed.Received.{received}
use latency_lab.UdpFeed.Sound.{after}
use latency_lab.UdpFeed.Book.{udp_feed-Represents}
use latency_lab.Report.{plain, pooled, final_book_state, spsc_report, producer_consumer_report}
use latency_lab.Report.Defined.{ArePercentages, book_lines, Reports, spsc_report-Agree}
use latency_lab.Report.Programs.{producer_consumer-Reports}
use latency_lab.Tests.Latencies.{whole}
use latency_lab.Tests.Benchmarks.{clock, aapl}
use latency_lab.Tests.Pipeline.{blank, schedule, plain_finished, pooled_finished}
use latency_lab.Tests.Threads.{rounds}
use latency_lab.Tests.Feeds.{datagrams, datagrams-IsShort}

percentages : ArePercentages whole 99
percentages = (omega arith, omega arith, omega arith, omega arith)

spsc_report-Agree_example :
    let q = spsc_queue clock blank 2 aapl 1 (pos 0) (pos 2) schedule in
    let q' = spsc_queue_pooled clock blank 2 aapl 1 (pos 0) (pos 2) 10000 schedule in
    (b : OrderBook) × (b' : PooledOrderBook) × (q.worker.book ≡ some b)
    × (q'.worker.book ≡ some b')
    × Represents b (apply_all (generated clock 2 aapl) [])
    × Reports whole 99 2 (book_lines whole 99 b) (spsc_report whole 99 plain 500 q)
    × Reports whole 99 2 (book_lines whole 99 b) (spsc_report whole 99 pooled 400 q')
spsc_report-Agree_example =
    spsc_report-Agree whole 99 clock blank 2 aapl 1 (pos 0) (pos 2) 10000 500 400 schedule schedule
      percentages (omega arith) (omega arith) (omega arith) plain_finished pooled_finished

producer_consumer-Reports_example :
    let q = producer_consumer clock blank 2 aapl 1 (pos 0) (pos 2) (turns rounds) in
    BothEnded q
    × ((b : OrderBook) × Represents b (apply_all (generated clock 2 aapl) [])
        × Reports whole 99 2
            (final_book_state whole 99 plain b)
            (producer_consumer_report whole 99 500 q))
producer_consumer-Reports_example =
    producer_consumer-Reports whole 99 clock blank 2 aapl 1 (pos 0) (pos 2) 500 rounds percentages
      (omega arith) (omega arith) (omega arith)

udp_feed-Represents_example :
    let messages = generated clock 3 aapl in
    let q = after OrderBook.on_message messages OrderBook.new 3 (pos 0) (pos 1) datagrams in
    let brought =
      received OrderBook.on_message 3 (initial messages OrderBook.new (pos 0) (pos 1)) datagrams in
    (b : OrderBook) × (q.worker.book ≡ some b)
    × Represents b (apply_all brought [])
    × (q.worker.consumed ≡ length brought)
    × ((f : MarketMessage → Bool) → IgnoresTime f → count_if f brought ≤ count_if f messages)
    × (sub64 q.produced q.worker.consumed + q.worker.consumed ≡ q.produced)
udp_feed-Represents_example =
    udp_feed-Represents clock 3 aapl (pos 0) (pos 1) datagrams (omega arith) (λ k. omega arith)
      datagrams-IsShort

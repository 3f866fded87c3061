-- ===== src/Tests/Pipeline.antt =====
-- The programs over the queues, on schedules in which a producer finds no room and a consumer nothing.
use latency_lab.Base.{
  ℕ, ◌+◌, ◌-◌, ◌%◌, ◌^◌, ◌≤◌, ◌≡◌, refl, List, [], ◌∷◌, ◌++◌, length, replicate, arith, ◌*◌,
}
use latency_lab.Base.Int.{ℤ, pos}
use latency_lab.Message.{MarketMessage, buy, add}
use latency_lab.SpscRingBuffer
use latency_lab.OrderBook
use latency_lab.OrderBook.{OrderBook}
use latency_lab.Generator.{new, generate_one, generate_from, generate}
use latency_lab.Generator.Ranges.{generated, length-generated}
use latency_lab.Worker.{MarketMessageEnvelope, stamp, Readings, Worker, new_worker, work}
use latency_lab.Worker.Latencies.{HasWorked, work_latencies}
use latency_lab.Pipeline.{Event, producer, consumer, finished, produce, consume, step, run, initial}
use latency_lab.Pipeline.Benchmarks.{spsc_queue, spsc_queue_pooled}
use latency_lab.Pipeline.Turns.{spin_turns, BothEnded, spin_turns_finish}
use latency_lab.Pipeline.Complete.{after, after_complete}
use latency_lab.Tests.Feed.{message}
use latency_lab.Tests.Benchmarks.{clock, aapl}

abbrev pub blank : MarketMessageEnvelope
blank = record {
  message = message add 0 buy 0 0;
  producer_timestamp_ns = 0;
  queue_push_timestamp_ns = 0;
}

-- One round of a consumer that pops at `t`.
abbrev pub at_time : ℕ → Readings
at_time t = record {
  pop_time = t;
  book_start = t + 1;
  book_end = t + 3;
  end_time = t + 4;
  current_cpu = pos 2;
}

-- Two messages over one place. The second push finds no room at first.
abbrev pub schedule : List Event
schedule =
    producer 1 (pos 0)
    ∷ producer 2 (pos 0)
    ∷ producer 3 (pos 1)
    ∷ producer 4 (pos 1)
    ∷ consumer (at_time 5)
    ∷ consumer (at_time 6)
    ∷ producer 12 (pos 1)
    ∷ producer 13 (pos 1)
    ∷ consumer (at_time 14)
    ∷ consumer (at_time 15)
    ∷ consumer (at_time 16)
    ∷ consumer (at_time 21)
    ∷ consumer (at_time 22)
    ∷ []

pub plain_finished : (spsc_queue clock blank 2 aapl 1 (pos 0) (pos 2) schedule).consumer ≡ finished
unfolding run step produce consume initial SpscRingBuffer.new SpscRingBuffer.push SpscRingBuffer.pop
    SpscRingBuffer.is_empty SpscRingBuffer.increment generate generate_from generate_one new
plain_finished = refl

pub pooled_finished :
    (spsc_queue_pooled clock blank 2 aapl 1 (pos 0) (pos 2) 10000 schedule).consumer ≡ finished
unfolding run step produce consume initial SpscRingBuffer.new SpscRingBuffer.push SpscRingBuffer.pop
    SpscRingBuffer.is_empty SpscRingBuffer.increment generate generate_from generate_one new
pooled_finished = refl

after_complete_example :
    let msgs = generated clock 2 aapl in
    let p = after OrderBook.on_message blank msgs OrderBook.new 1 (pos 0) (pos 2) schedule in
    HasWorked OrderBook.on_message OrderBook.new msgs p.worker × (p.produced ≡ length msgs % 2 ^ 64)
after_complete_example =
    after_complete OrderBook.on_message blank (generated clock 2 aapl) OrderBook.new 1 (pos 0)
      (pos 2) schedule (omega arith) plain_finished

abbrev messages : List MarketMessage
messages = generated clock 2 aapl

-- Nineteen rounds.
abbrev spinning : List (ℕ × ℤ × Readings)
spinning = replicate 19 (3, pos 0, at_time 5)

enough_spinning : 7 * length messages + 5 ≤ length spinning
enough_spinning = omega (arith, length-generated clock 2 aapl)

spin_turns_finish_example :
    let p =
      after OrderBook.on_message blank messages OrderBook.new 1
        (pos 0)
        (pos 2)
        (spin_turns spinning) in
    BothEnded p × HasWorked OrderBook.on_message OrderBook.new messages p.worker
spin_turns_finish_example =
    spin_turns_finish OrderBook.on_message blank messages OrderBook.new 1 (pos 0) (pos 2) spinning
      (omega arith) (omega arith) enough_spinning

abbrev fresh : Worker OrderBook
fresh = new_worker OrderBook.new (pos 0)

-- The message was taken up at 3 and pushed at 4.
work_latencies_example :
    let e = record blank { producer_timestamp_ns = stamp 3; queue_push_timestamp_ns = stamp 4 } in
    let w = work OrderBook.on_message fresh e (at_time 16) in
    (wait processing latency : ℕ) × (w.queue_wait.samples ≡ fresh.queue_wait.samples ++ wait ∷ [])
    × (w.book_processing.samples ≡ fresh.book_processing.samples ++ processing ∷ [])
    × (w.pipeline_latency.samples ≡ fresh.pipeline_latency.samples ++ latency ∷ [])
    × (wait ≡ 16 - 4)
    × (processing ≡ 16 + 3 - (16 + 1))
    × (latency ≡ 16 + 4 - 3)
    × (wait + processing ≤ latency)
work_latencies_example =
    work_latencies OrderBook.on_message fresh
      (record blank { producer_timestamp_ns = stamp 3; queue_push_timestamp_ns = stamp 4 })
      (at_time 16) 3 4 refl refl (omega arith) (omega arith) (omega arith) (omega arith)
      (omega arith) (omega arith)

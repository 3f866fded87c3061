-- ===== src/Pipeline.antt =====
-- apps/benchmark_spsc_queue.cpp and apps/benchmark_spsc_queue_pooled.cpp: the loops of the producer
-- and of the consumer, and a ring between them. A step is one call of the ring, one access to
-- `producer_done`, or the start of a round of the producer. The programs differ in the book:
-- `on_message` is that of the book they use. The clock and the CPUs are read from outside: an event
-- brings what its step reads.
pub mod Complete
pub mod Measure
pub mod Live
pub mod Turns
pub mod Benchmarks
use latency_lab.Base.{ℕ, Bool, true, false, if◌then◌else◌, List, [], ◌∷◌, Option}
use latency_lab.Base.Int.{ℤ}
use latency_lab.Message.{MarketMessage}
use latency_lab.SpscRingBuffer.{Ring, push, pop, is_empty}
use latency_lab.ThreadUtils.{count, CpuTrack, track_start, track}
use latency_lab.Worker.{MarketMessageEnvelope, stamp, Readings, Worker, new_worker, work}

-- Where the producer stands: at the head of its loop, at a call of `push` with the timestamp that
-- its envelope has, or behind its last store.
pub data Producer : Type 0 where
  at_message : Producer
  at_push : (producer_timestamp_ns : ℕ) → Producer
  ended : Producer

-- Where the consumer stands: at the load of `producer_done`, at `queue.empty()`, at `queue.pop`, or
-- behind its loop.
pub data Consumer : Type 0 where
  at_done at_empty at_pop finished : Consumer

-- `to_send` is what has not entered the ring: the message of the producer's round, if it is in one,
-- is its head. `envelope` is the consumer's variable.
pub record Pipeline (B : Type 0) : Type 0 where
  pub queue : Ring MarketMessageEnvelope
  pub to_send : List MarketMessage
  pub producer : Producer
  pub producer_done : Bool
  pub consumer : Consumer
  pub envelope : MarketMessageEnvelope
  pub worker : Worker B
  pub produced : ℕ
  pub producer_cpu : CpuTrack
  pub producer_spins : ℕ
  pub consumer_spins : ℕ

-- Which thread makes the next step, with the time and the CPU that the producer reads, or with the
-- readings of the consumer.
pub data Event : Type 0 where
  producer : (time : ℕ) (current_cpu : ℤ) → Event
  consumer : Readings → Event

module _ {B : Type 0} where
  -- The start of a round, one attempt to push with the end of the round behind it, or the store of
  -- `producer_done`.
  unfoldable pub produce : Producer → List MarketMessage → ℕ → ℤ → Pipeline B → Pipeline B
  produce at_message [] time cpu p = record p { producer_done = true; producer = ended }
  produce at_message (message ∷ rest) time cpu p = record p { producer = at_push (stamp time) }
  produce (at_push t) [] time cpu p = p
  produce (at_push t) (message ∷ rest) time cpu p =
      let envelope : MarketMessageEnvelope = record {
        message = message;
        producer_timestamp_ns = t;
        queue_push_timestamp_ns = stamp time;
      } in
      let r = push p.queue envelope in
      if r.0
      then record p {
        queue = r.1;
        to_send = rest;
        producer = at_message;
        produced = count p.produced;
        producer_cpu = track p.producer_cpu cpu;
      }
      else record p { producer_spins = count p.producer_spins }
  produce ended todo time cpu p = p

module _ {B : Type 0} (on_message : B → MarketMessage → Option B) where
  unfoldable pub consume : Consumer → Readings → Pipeline B → Pipeline B
  consume at_done readings p = record p { consumer = if p.producer_done then at_empty else at_pop }
  consume at_empty readings p = record p {
    consumer = if is_empty p.queue then finished else at_pop;
  }
  consume at_pop readings p =
      let r = pop p.queue p.envelope in
      if r.0
      then record p {
        queue = r.2;
        envelope = r.1;
        worker = work on_message p.worker r.1 readings;
        consumer = at_done;
      }
      else record p { consumer_spins = count p.consumer_spins; consumer = at_done }
  consume finished readings p = p

  unfoldable pub step : Pipeline B → Event → Pipeline B
  step p (producer time cpu) = produce p.producer p.to_send time cpu p
  step p (consumer readings) = consume p.consumer readings p

  unfoldable pub run : Pipeline B → List Event → Pipeline B
  run p [] = p
  run p (e ∷ es) = run (step p e) es

module _ {B : Type 0} where
  -- Both threads at the start of their loops, with the CPUs they start on. `blank` is
  -- `MarketMessageEnvelope{}`.
  unfoldable pub initial :
      Ring MarketMessageEnvelope
      → MarketMessageEnvelope
      → List MarketMessage
      → B
      → ℤ
      → ℤ
      → Pipeline B
  initial queue blank messages book producer_cpu consumer_cpu = record {
    queue = queue;
    to_send = messages;
    producer = at_message;
    producer_done = false;
    consumer = at_done;
    envelope = blank;
    worker = new_worker book consumer_cpu;
    produced = 0;
    producer_cpu = track_start producer_cpu;
    producer_spins = 0;
    consumer_spins = 0;
  }

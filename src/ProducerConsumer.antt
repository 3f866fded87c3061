-- ===== src/ProducerConsumer.antt =====
-- apps/benchmark_producer_consumer.cpp: the loops of the producer and of the consumer, and the mutex
-- queue between them. A step is what a thread does while it holds the mutex, with what it does until it
-- comes to the mutex again, one notification of `close`, or the start of a round of the producer. A
-- thread whose predicate does not hold sleeps until it is notified, or wakes for no reason. The clock and the
-- CPUs are read from outside: an event brings what its step reads.
pub mod Places
pub mod Sound
pub mod Live
pub mod Benchmark
use latency_lab.Base.{ℕ, Bool, true, false, if◌then◌else◌, List, [], ◌∷◌, Option}
use latency_lab.Base.Int.{ℤ}
use latency_lab.Message.{MarketMessage}
use latency_lab.MutexQueue.{BoundedMutexQueue, can_push, can_pop, push_with_mutation, pop, close}
use latency_lab.MutexQueue
use latency_lab.ThreadUtils.{count, CpuTrack, track_start, track}
use latency_lab.Worker.{MarketMessageEnvelope, stamp, Readings, Worker, new_worker, work}

-- Where the producer stands: at the head of its loop; about to take the mutex in
-- `push_with_mutation`, at first or woken; asleep in it; in `close`, before the first and before the
-- second notification; or at its end.
pub data Producer : Type 0 where
  at_message : Producer
  at_push asleep_push : (item : MarketMessageEnvelope) → Producer
  at_notify_empty at_notify_full ended : Producer

-- The consumer about to take the mutex in `pop`, at first or woken; asleep in it; or behind its loop.
pub data Consumer : Type 0 where
  at_pop asleep_pop finished : Consumer

-- `to_send` is what the producer's loop still has before it; `envelope` is the consumer's variable.
pub record Program (B : Type 0) : Type 0 where
  pub queue : BoundedMutexQueue MarketMessageEnvelope
  pub to_send : List MarketMessage
  pub producer : Producer
  pub consumer : Consumer
  pub envelope : MarketMessageEnvelope
  pub worker : Worker B
  pub produced : ℕ
  pub producer_cpu : CpuTrack

-- Which thread makes the next step, or wakes for no reason.
pub data Event : Type 0 where
  producer : (time : ℕ) (current_cpu : ℤ) → Event
  consumer : Readings → Event
  spurious_push spurious_pop : Event

-- `not_full_.notify_one()`, and `notify_all`: only the producer waits there.
abbrev pub wake_producer : Producer → Producer
wake_producer (asleep_push item) = at_push item
wake_producer s = s

-- `not_empty_.notify_one()`, and `notify_all`: only the consumer waits there.
abbrev pub wake_consumer : Consumer → Consumer
wake_consumer asleep_pop = at_pop
wake_consumer c = c

module _ {B : Type 0} where
  unfoldable pub produce : Producer → List MarketMessage → ℕ → ℤ → Program B → Program B
  produce at_message [] time cpu p = record p { queue = close p.queue; producer = at_notify_empty }
  produce at_message (message ∷ rest) time cpu p = record p {
    to_send = rest;
    producer = at_push (record {
      message = message;
      producer_timestamp_ns = stamp time;
      queue_push_timestamp_ns = 0;
    });
  }
  produce (at_push item) todo time cpu p =
      if can_push p.queue
      then (let r =
            push_with_mutation p.queue item
              (λ e. record e { queue_push_timestamp_ns = stamp time }) in
          record p {
            queue = r.1;
            consumer = if r.0 then wake_consumer p.consumer else p.consumer;
            producer = at_message;
            produced = count p.produced;
            producer_cpu = track p.producer_cpu cpu;
          })
      else record p { producer = asleep_push item }
  produce (asleep_push item) todo time cpu p = p
  produce at_notify_empty todo time cpu p = record p {
    consumer = wake_consumer p.consumer;
    producer = at_notify_full;
  }
  produce at_notify_full todo time cpu p = record p { producer = ended }
  produce ended todo time cpu p = p

module _ {B : Type 0} (on_message : B → MarketMessage → Option B) where
  unfoldable pub consume : Consumer → Readings → Program B → Program B
  consume at_pop readings p =
      if can_pop p.queue
      then (let r = pop p.queue p.envelope in
          if r.0
          then record p {
            queue = r.2;
            envelope = r.1;
            worker = work on_message p.worker r.1 readings;
            producer = wake_producer p.producer;
          }
          else record p { consumer = finished })
      else record p { consumer = asleep_pop }
  consume asleep_pop readings p = p
  consume finished readings p = p

  unfoldable pub step : Program B → Event → Program B
  step p (producer time cpu) = produce p.producer p.to_send time cpu p
  step p (consumer readings) = consume p.consumer readings p
  step p spurious_push = record p { producer = wake_producer p.producer }
  step p spurious_pop = record p { consumer = wake_consumer p.consumer }

  unfoldable pub run : Program B → List Event → Program B
  run p [] = p
  run p (e ∷ es) = run (step p e) es

module _ {B : Type 0} where
  -- Both threads at the start of their loops, with the CPUs they start on. `blank` is
  -- `MarketMessageEnvelope{}`.
  unfoldable pub initial : ℕ → MarketMessageEnvelope → List MarketMessage → B → ℤ → ℤ → Program B
  initial queue_capacity blank messages book producer_cpu consumer_cpu = record {
    queue = MutexQueue.new queue_capacity;
    to_send = messages;
    producer = at_message;
    consumer = at_pop;
    envelope = blank;
    worker = new_worker book consumer_cpu;
    produced = 0;
    producer_cpu = track_start producer_cpu;
  }

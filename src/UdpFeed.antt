-- ===== src/UdpFeed.antt =====
-- apps/benchmark_udp_feed.cpp: the loops of the producer and of the consumer, and the datagrams between
-- them. A step is one round of the producer, its store of `producer_done`, one call of recv with the round
-- behind it, a test of the consumer's, or the loss of a datagram. The network may lose
-- datagrams and bring them in any order; it brings none twice.
-- A sendto and the count of its message are one step, so that no datagram comes before it is counted; the program
-- compares the two counters only when both threads have ended.
pub mod Counts
pub mod Sound
pub mod Received
pub mod Ends
pub mod Book
use latency_lab.Base.{
  ℕ, zero, suc, ◌==◌, Bool, true, false, ltb, if◌then◌else◌, List, [], ◌∷◌, Option, none, some,
  length,
}
use latency_lab.Base.Int.{ℤ}
use latency_lab.Message.{MarketMessage}
use latency_lab.ThreadUtils.{CpuTrack, count, track, track_start}
use latency_lab.Wire.{message_size, encode}
use latency_lab.Feed.{FeedReadings, FeedWorker, new_feed_worker, stamped, handle_bytes}

-- The consumer at the test of its loop, at `recv`, at the load of `producer_done`, or behind its loop.
pub data Consumer : Type 0 where
  at_loop at_recv at_done finished : Consumer

-- `to_send` is what the producer's loop still has before it; `in_flight` are the datagrams on their way,
-- each by the message whose bytes it holds.
pub record Program (B : Type 0) : Type 0 where
  pub in_flight : List MarketMessage
  pub to_send : List MarketMessage
  pub producer_done : Bool
  pub consumer : Consumer
  pub worker : FeedWorker B
  pub produced : ℕ
  pub producer_cpu : CpuTrack

-- A step of the producer, with what it reads and whether sendto takes the whole message; a test of
-- the consumer's; a recv that returns the datagram at a place among those on their way, the bytes of
-- some other sender, or an error; the loss of the datagram at a place.
pub data Event : Type 0 where
  producer : (time : ℕ) (current_cpu : ℤ) (taken : Bool) → Event
  test : Event
  receive : (place : ℕ) → FeedReadings → Event
  receive_stray : (bytes : List ℕ) → FeedReadings → Event
  receive_failed : Event
  lose : (place : ℕ) → Event

-- The element at a place, and the others.
unfoldable pub take_out {ℓ} : {A : Type ℓ} → ℕ → List A → Option (A × List A)
take_out place [] = none
take_out zero (x ∷ xs) = some (x, xs)
take_out (suc place) (x ∷ xs) = elim (take_out place xs) [
  | none ↦ none
  | some r ↦ some (r.0, x ∷ r.1)
]

module _ {B : Type 0} where
  unfoldable pub produce : List MarketMessage → ℕ → ℤ → Bool → Program B → Program B
  produce [] time cpu taken p = record p { producer_done = true }
  produce (message ∷ rest) time cpu taken p =
      let p' = record p { to_send = rest; producer_cpu = track p.producer_cpu cpu } in
      if taken
      then record p' { in_flight = stamped message time ∷ p.in_flight; produced = count p.produced }
      else p'

module _ {B : Type 0} (on_message : B → MarketMessage → Option B) where
  -- The round behind a `recv` that returned bytes. Bytes that are no message lead out of the model.
  unfoldable pub arrive : List ℕ → FeedReadings → Program B → Program B
  arrive bytes readings p =
      if length bytes == message_size
      then (elim (handle_bytes on_message p.worker bytes readings) [
        | none ↦ record p { worker = record (p.worker) { book = none }; consumer = at_loop }
        | some worker ↦ record p { worker = worker; consumer = at_loop }
      ])
      else record p { consumer = at_loop }

  -- A step of the consumer, which has been asked for `num_messages`.
  unfoldable pub consume : ℕ → Consumer → Event → Program B → Program B
  consume num_messages at_loop test p = record p {
    consumer = if ltb p.worker.consumed num_messages then at_recv else finished;
  }
  consume num_messages at_done test p = record p {
    consumer = if p.producer_done then finished else at_loop;
  }
  consume num_messages at_recv (receive place readings) p = elim (take_out place p.in_flight) [
    | none ↦ p
    | some r ↦ arrive (encode r.0) readings (record p { in_flight = r.1 })
  ]
  consume num_messages at_recv (receive_stray bytes readings) p = arrive bytes readings p
  consume num_messages at_recv receive_failed p = record p { consumer = at_done }
  consume num_messages _ _ p = p

  unfoldable pub step : ℕ → Program B → Event → Program B
  step num_messages p (producer time cpu taken) = produce p.to_send time cpu taken p
  step num_messages p (lose place) = elim (take_out place p.in_flight) [
    | none ↦ p
    | some r ↦ record p { in_flight = r.1 }
  ]
  step num_messages p event = consume num_messages p.consumer event p

  unfoldable pub run : ℕ → Program B → List Event → Program B
  run num_messages p [] = p
  run num_messages p (e ∷ es) = run num_messages (step num_messages p e) es

module _ {B : Type 0} where
  -- Both threads at the start of their loops, with the CPUs they start on.
  unfoldable pub initial : List MarketMessage → B → ℤ → ℤ → Program B
  initial messages book producer_cpu consumer_cpu = record {
    in_flight = [];
    to_send = messages;
    producer_done = false;
    consumer = at_loop;
    worker = new_feed_worker book consumer_cpu;
    produced = 0;
    producer_cpu = track_start producer_cpu;
  }

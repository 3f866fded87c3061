-- ===== src/TcpFeed.antt =====
-- apps/benchmark_tcp_feed.cpp: the loop of the producer over send_all and that of the consumer over
-- recv_all, each on its end of the connection. What the threads read of the clock and of the CPUs is a
-- function of the round.
pub mod Producer
pub mod Consumer
pub mod Stream
pub mod Whole
use latency_lab.Base.{
  ℕ, zero, suc, ◌+◌, Bool, true, false, ltb, if◌then◌else◌, List, [], ◌∷◌, Option, none, some,
  ◌>>=◌,
}
use latency_lab.Base.Int.{ℤ}
use latency_lab.Message.{MarketMessage}
use latency_lab.Sockets.{Connection, send_all, recv_all}
use latency_lab.ThreadUtils.{CpuTrack, count, track, track_start}
use latency_lab.Wire.{message_size, encode}
use latency_lab.Feed.{FeedReadings, FeedWorker, new_feed_worker, stamped, handle_bytes}

-- The producer, with the state of its end of the connection.
pub record Sender (S : Type 0) : Type 0 where
  pub connection : S
  pub produced : ℕ
  pub cpu : CpuTrack

-- The consumer, with the state of its end of the connection.
pub record Receiver (B S : Type 0) : Type 0 where
  pub connection : S
  pub worker : FeedWorker B

module _ {S : Type 0} (c : Connection S) where
  -- The producer's loop from the round `i` on: it stops where `send_all` fails.
  unfoldable pub send_feed :
      (ℕ → ℕ) → (ℕ → ℤ) → ℕ → List MarketMessage → Sender S → Option (Sender S)
  send_feed clock cpus i [] w = some w
  send_feed clock cpus i (message ∷ rest) w =
      send_all c w.connection (encode (stamped message (clock i))) >>= (λ r.
        if r.0
        then send_feed clock cpus (suc i) rest
            (record { connection = r.1; produced = count w.produced; cpu = track w.cpu (cpus i) })
        else some (record w { connection = r.1 }))

  module _ {B : Type 0} (on_message : B → MarketMessage → Option B) where
    -- The consumer's loop: it ends with the last message asked for, or where `recv_all` fails; `none`
    -- where the fuel is out.
    unfoldable pub receive_feed : (ℕ → FeedReadings) → ℕ → ℕ → Receiver B S → Option (Receiver B S)
    receive_feed readings zero num_messages w = none
    receive_feed readings (suc fuel) num_messages w =
        if ltb w.worker.consumed num_messages
        then (recv_all c w.connection message_size >>= (λ r.
            if r.0
            then (handle_bytes on_message w.worker r.1 (readings w.worker.consumed) >>= (λ worker.
                receive_feed readings fuel num_messages
                  (record { connection = r.2; worker = worker })))
            else some (record w { connection = r.2 })))
        else some w

    -- The threads from their first rounds on; the consumer has a round for each message and its end.
    unfoldable pub consumer : (ℕ → FeedReadings) → ℕ → B → ℤ → S → Option (Receiver B S)
    consumer readings num_messages book cpu s =
        receive_feed readings (suc num_messages) num_messages
          (record { connection = s; worker = new_feed_worker book cpu })

  unfoldable pub producer : (ℕ → ℕ) → (ℕ → ℤ) → List MarketMessage → ℤ → S → Option (Sender S)
  producer clock cpus messages cpu s =
      send_feed clock cpus 0 messages
        (record { connection = s; produced = 0; cpu = track_start cpu })

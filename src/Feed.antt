-- ===== src/Feed.antt =====
-- What the consumers of apps/benchmark_tcp_feed.cpp and apps/benchmark_udp_feed.cpp do with a message
-- that has arrived, and how the producers stamp one. The clock and the CPU are read from outside.
pub mod Handled
pub mod Generated
use latency_lab.Base.{ℕ, suc, Option, some, ◌>>=◌, List, [], ◌∷◌}
use latency_lab.Base.Int.{ℤ}
use latency_lab.Message.{MarketMessage}
use latency_lab.Metrics
use latency_lab.Metrics.{LatencyRecorder, record_sample}
use latency_lab.ThreadUtils.{CpuTrack, count, track, track_start}
use latency_lab.Worker.{stamp, sub64}
use latency_lab.Wire.{decode}

-- The times at which one round of the consumer reads the clock, and the CPU it reads at its end.
pub record FeedReadings : Type 0 where
  pub before_book : ℕ
  pub book_start : ℕ
  pub book_end : ℕ
  pub current_cpu : ℤ

-- `book` is `none` once the book has run into undefined behaviour.
pub record FeedWorker (B : Type 0) : Type 0 where
  pub book : Option B
  pub network_to_book : LatencyRecorder
  pub book_processing : LatencyRecorder
  pub consumed : ℕ
  pub cpu : CpuTrack

unfoldable pub new_feed_worker : {B : Type 0} → B → ℤ → FeedWorker B
new_feed_worker book cpu = record {
  book = some book;
  network_to_book = Metrics.new;
  book_processing = Metrics.new;
  consumed = 0;
  cpu = track_start cpu;
}

-- `message.exchange_timestamp_ns = get_timestamp_ns()`
abbrev pub stamped : MarketMessage → ℕ → MarketMessage
stamped message time = record message { exchange_timestamp_ns = stamp time }

-- The messages with the times of the rounds from `i` on.
unfoldable pub stamp_all : (ℕ → ℕ) → ℕ → List MarketMessage → List MarketMessage
stamp_all clock i [] = []
stamp_all clock i (m ∷ ms) = stamped m (clock i) ∷ stamp_all clock (suc i) ms

module _ {B : Type 0} (on_message : B → MarketMessage → Option B) where
  -- One round of the consumer behind `recv`.
  unfoldable pub handle : FeedWorker B → MarketMessage → FeedReadings → FeedWorker B
  handle w message r = record {
    network_to_book =
        record_sample w.network_to_book (sub64 (stamp r.before_book) message.exchange_timestamp_ns);
    book = w.book >>= (λ b. on_message b message);
    book_processing =
        record_sample w.book_processing (sub64 (stamp r.book_end) (stamp r.book_start));
    consumed = count w.consumed;
    cpu = track w.cpu r.current_cpu;
  }

  -- The same on the bytes in the buffer; bytes that are no message lead out of the model.
  unfoldable pub handle_bytes : FeedWorker B → List ℕ → FeedReadings → Option (FeedWorker B)
  handle_bytes w bytes r = decode bytes >>= (λ message. some (handle w message r))

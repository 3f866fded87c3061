-- ===== src/Worker.antt =====
-- What the consumers of apps/benchmark_producer_consumer.cpp, apps/benchmark_spsc_queue.cpp and
-- apps/benchmark_spsc_queue_pooled.cpp do with an envelope that left the queue. The clock and the CPU
-- are read from outside: a step takes its `Readings`.
pub mod Fold
pub mod Latencies
use latency_lab.Base.{ℕ, ◌+◌, ◌-◌, ◌%◌, ◌^◌, Option, some, ◌>>=◌}
use latency_lab.Base.Int.{ℤ}
use latency_lab.Message.{MarketMessage}
use latency_lab.Metrics
use latency_lab.Metrics.{LatencyRecorder, record_sample}
use latency_lab.ThreadUtils.{CpuTrack, count, track, track_start}

pub record MarketMessageEnvelope : Type 0 where
  pub message : MarketMessage
  pub producer_timestamp_ns : ℕ
  pub queue_push_timestamp_ns : ℕ

-- `get_timestamp_ns` at the time `t` of the steady clock, a 64-bit word.
abbrev pub stamp : ℕ → ℕ
stamp t = t % 2 ^ 64

-- The difference of two 64-bit words.
unfoldable pub sub64 : ℕ → ℕ → ℕ
sub64 a b = (a + 2 ^ 64 - b) % 2 ^ 64

-- The times at which one round of the consumer reads the clock, and the CPU it reads at its end.
pub record Readings : Type 0 where
  pub pop_time : ℕ
  pub book_start : ℕ
  pub book_end : ℕ
  pub end_time : ℕ
  pub current_cpu : ℤ

-- `book` is `none` once the book has run into undefined behaviour.
pub record Worker (B : Type 0) : Type 0 where
  pub book : Option B
  pub pipeline_latency : LatencyRecorder
  pub queue_wait : LatencyRecorder
  pub book_processing : LatencyRecorder
  pub consumed : ℕ
  pub cpu : CpuTrack

module _ {B : Type 0} where
  unfoldable pub new_worker : B → ℤ → Worker B
  new_worker book cpu = record {
    book = some book;
    pipeline_latency = Metrics.new;
    queue_wait = Metrics.new;
    book_processing = Metrics.new;
    consumed = 0;
    cpu = track_start cpu;
  }

module _ {B : Type 0} (on_message : B → MarketMessage → Option B) where
  -- One round of the consumer behind `pop`.
  unfoldable pub work : Worker B → MarketMessageEnvelope → Readings → Worker B
  work w envelope r = record {
    queue_wait =
        record_sample w.queue_wait (sub64 (stamp r.pop_time) envelope.queue_push_timestamp_ns);
    book = w.book >>= (λ b. on_message b envelope.message);
    book_processing =
        record_sample w.book_processing (sub64 (stamp r.book_end) (stamp r.book_start));
    pipeline_latency =
        record_sample w.pipeline_latency (sub64 (stamp r.end_time) envelope.producer_timestamp_ns);
    consumed = count w.consumed;
    cpu = track w.cpu r.current_cpu;
  }

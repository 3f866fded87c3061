-- ===== src/SingleThread.antt =====
-- apps/benchmark_single_thread.cpp and `run_case` of apps/benchmark_memory_pool.cpp: the loop that applies
-- the messages one after the other and records the time of each, and the warm-up before it. `duration` gives the
-- measured time of the message with an index.
pub mod Runs
pub mod MemoryPool
use latency_lab.Base.{ℕ, suc, min, List, [], ◌∷◌, Option, none, some, ◌>>=◌, length}
use latency_lab.Message.{MarketMessage}
use latency_lab.Metrics
use latency_lab.Metrics.{LatencyRecorder, record_sample}
use latency_lab.OrderBook
use latency_lab.OrderBook.{OrderBook}
use latency_lab.Batching.{process_batch}

module _ {B : Type 0} (on_message : B → MarketMessage → Option B) where
  -- The measuring loop from the index `i` on; `none` is undefined behaviour.
  unfoldable pub measure :
      (ℕ → ℕ) → ℕ → List MarketMessage → B × LatencyRecorder → Option (B × LatencyRecorder)
  measure duration i [] s = some s
  measure duration i (message ∷ rest) s =
      on_message s.0 message
      >>= (λ book. measure duration (suc i) rest (book, record_sample s.1 (duration i)))

  -- `run_case`, with the book that `make_book` makes.
  unfoldable pub run_case : (ℕ → ℕ) → List MarketMessage → B → Option (B × LatencyRecorder)
  run_case duration messages book = measure duration 0 messages (book, Metrics.new)

abbrev pub warmup_count : ℕ
warmup_count = 1000

unfoldable pub warm_up : List MarketMessage → OrderBook → Option OrderBook
warm_up messages book = process_batch messages (min warmup_count (length messages)) 0 book

-- `main` of apps/benchmark_single_thread.cpp on the generated messages.
unfoldable pub single_thread : (ℕ → ℕ) → List MarketMessage → Option (OrderBook × LatencyRecorder)
single_thread duration messages =
    warm_up messages OrderBook.new
    >>= (λ book. measure OrderBook.on_message duration 0 messages (book, Metrics.new))

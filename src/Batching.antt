-- ===== src/Batching.antt =====
-- apps/benchmark_batching.cpp: the messages in batches of a given size, and one sample of the amortized
-- latency for each message. `duration` gives the measured time of the batch that starts at an index.
pub mod Rounds
use latency_lab.Base.{
  ℕ, zero, suc, ◌+◌, ◌-◌, ◌*◌, ◌/◌, ◌≤◌, ◌<◌, ◌≡◌, refl, sym, ◌∙◌, ap, subst, min, max, Bool, true,
  false, Bool-cases, ltb, inl, inr, List, [], ◌∷◌, ◌++◌, Option, none, some, ◌>>=◌, Option-cases,
  get_elem?, take, drop, take-append-drop, drop_nil, drop-drop, length-drop, length, length-append,
  arith,
}
use latency_lab.Message.{MarketMessage}
use latency_lab.OrderBook.{OrderBook, on_message, process}
use latency_lab.Metrics.{LatencyRecorder, record_sample}

-- The inner loop, with `count` messages to go from the index `i` on; `none` is undefined behaviour, an
-- access past the end of the vector included.
unfoldable pub process_batch : List MarketMessage → ℕ → ℕ → OrderBook → Option OrderBook
process_batch messages zero i b = some b
process_batch messages (suc count) i b =
    get_elem? messages i
    >>= (λ msg. on_message b msg >>= (λ b'. process_batch messages count (suc i) b'))

-- The loop that records one value `count` times.
unfoldable pub record_times : ℕ → ℕ → LatencyRecorder → LatencyRecorder
record_times zero latency_ns r = r
record_times (suc count) latency_ns r = record_times count latency_ns (record_sample r latency_ns)

-- The outer loop from `batch_start` on; `none` also where the fuel is out.
unfoldable pub run_batches :
    ℕ
    → (ℕ → ℕ)
    → ℕ
    → List MarketMessage
    → ℕ
    → OrderBook × LatencyRecorder
    → Option (OrderBook × LatencyRecorder)
run_batches zero duration batch_size messages batch_start s = none
run_batches (suc fuel) duration batch_size messages batch_start s =
    elim (ltb batch_start (length messages)) [
      | false ↦ some s
      | true ↦
          let batch_end = min (batch_start + batch_size) (length messages) in
          let processed_in_batch = batch_end - batch_start in
          process_batch messages processed_in_batch batch_start s.0 >>= (λ b.
            run_batches fuel duration batch_size messages (batch_start + batch_size) (
              b,
              record_times processed_in_batch (duration batch_start / max processed_in_batch 1) s.1,
            ))
    ]

-- A round takes one message at least, so that their number bounds the rounds.
unfoldable pub run_all :
    (ℕ → ℕ)
    → ℕ
    → List MarketMessage
    → OrderBook × LatencyRecorder
    → Option (OrderBook × LatencyRecorder)
run_all duration batch_size messages s =
    run_batches (suc (length messages)) duration batch_size messages 0 s

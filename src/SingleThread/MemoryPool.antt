-- ===== src/SingleThread/MemoryPool.antt =====
-- `main` of apps/benchmark_memory_pool.cpp: its command line, its messages and its two cases.
use latency_lab.Base.{ℕ, min, ◌≤◌, ◌≡◌, refl, ap₂, List, [], ◌∷◌, Option, some, arith}
use latency_lab.Metrics.{LatencyRecorder}
use latency_lab.OrderBook
use latency_lab.OrderBook.{OrderBook}
use latency_lab.PooledOrderBook
use latency_lab.PooledOrderBook.{PooledOrderBook}
use latency_lab.PooledOrderBook.Agree.{Agree}
use latency_lab.Generator.Ranges.{generated}
use latency_lab.SingleThread.{run_case}
use latency_lab.SingleThread.Runs.{durations, run_case-Agree}
use latency_lab.Arguments.{Parsed, parsed, ◌>>=◌, arg, memory_pool_arguments}
use latency_lab.Arguments.Decimal.{decimal}
use latency_lab.Arguments.Printed.{IsU64, parse_u64_arg-decimal}

-- `AAPL`
abbrev pub aapl_symbol : List ℕ
aapl_symbol = 65 ∷ 65 ∷ 80 ∷ 76 ∷ []

-- What the two cases leave, or the exception that the command line throws. `clock` stamps the messages;
-- `duration` and `duration'` give the times that the cases measure.
unfoldable pub memory_pool :
    (clock duration duration' : ℕ → ℕ)
    → List (List ℕ)
    → Parsed (Option (OrderBook × LatencyRecorder) × Option (PooledOrderBook × LatencyRecorder))
memory_pool clock duration duration' argv = do
  a ← memory_pool_arguments argv
  let messages = generated clock a.0 aapl_symbol
  parsed (
    run_case OrderBook.on_message duration messages OrderBook.new,
    run_case PooledOrderBook.on_message duration' messages (PooledOrderBook.new a.1),
  )

-- What both cases leave on `n` messages: every time in its order, and books that agree.
abbrev pub BothRun :
    (clock duration duration' : ℕ → ℕ)
    → ℕ
    → Parsed (Option (OrderBook × LatencyRecorder) × Option (PooledOrderBook × LatencyRecorder))
    → Type 0
BothRun clock duration duration' n result =
    let messages = generated clock n aapl_symbol in
    (b : OrderBook) × (b' : PooledOrderBook) × (result
      ≡ parsed (
        some (b, record { samples = durations duration 0 messages }),
        some (b', record { samples = durations duration' 0 messages }),
      ))
    × Agree b b'

module _ (clock duration duration' : ℕ → ℕ) (program : List ℕ) (num_messages : ℕ) where
  both_run :
      (argv : List (List ℕ)) (pool_capacity : ℕ)
      → memory_pool_arguments argv ≡ parsed (num_messages, pool_capacity)
      → min 10000 num_messages ≤ pool_capacity
      → BothRun clock duration duration' num_messages (memory_pool clock duration duration' argv)
  unfolding memory_pool
  both_run argv pool_capacity read enough =
      let (b, b', plain, pooled, agree) =
        run_case-Agree clock num_messages aapl_symbol pool_capacity duration duration' enough in
      (b, b', rw read (ap₂ (λ x y. parsed (x, y)) plain pooled), agree)

  -- apps/benchmark_memory_pool.cpp with a number of messages below 2^64 as its only argument, in
  -- decimal: whatever the clock and the measured times, both of its cases end, with one sample for
  -- each message, in its order, and with books that agree on all that they show. As many slots as
  -- messages, the default, are enough.
  pub memory_pool-Agree :
      IsU64 num_messages
      → BothRun clock duration duration' num_messages
          (memory_pool clock duration duration' (program ∷ decimal num_messages ∷ []))
  unfolding memory_pool_arguments arg
  memory_pool-Agree fits =
      both_run (program ∷ decimal num_messages ∷ []) num_messages
        (rw (parse_u64_arg-decimal num_messages 1000000 fits) refl) (omega arith)

  -- The same where the slots are asked for, and are as many as messages or as the 10000 identifiers.
  pub memory_pool_slots-Agree :
      (pool_capacity : ℕ)
      → IsU64 num_messages
      → IsU64 pool_capacity
      → min 10000 num_messages ≤ pool_capacity
      → BothRun clock duration duration' num_messages (
          memory_pool clock duration duration'
            (program ∷ decimal num_messages ∷ decimal pool_capacity ∷ []))
  unfolding memory_pool_arguments arg
  memory_pool_slots-Agree pool_capacity fits fits' enough =
      both_run (program ∷ decimal num_messages ∷ decimal pool_capacity ∷ []) pool_capacity
        (rw
          (
            parse_u64_arg-decimal num_messages 1000000 fits,
            parse_u64_arg-decimal pool_capacity num_messages fits',
          )
          refl)
        enough

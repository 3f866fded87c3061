-- ===== src/SingleThread/Runs.antt =====
-- Measuring leaves the book that the messages make, and one sample for each; what the warm-up adds.
use latency_lab.Base.{
  ℕ, zero, suc, min, ◌≤◌, ◌≡◌, refl, sym, ◌∙◌, ap, ap₂, some_eq, inl, inr, List, [], ◌∷◌, ◌++◌, All,
  Option, none, some, ◌>>=◌, Option-cases, take, length, arith,
}
use mathlib.Core.List.{append_assoc, append-nil}
use latency_lab.Message.{MarketMessage}
use latency_lab.Metrics
use latency_lab.Metrics.{LatencyRecorder, record_sample}
use latency_lab.OrderBook
use latency_lab.OrderBook.{OrderBook}
use latency_lab.OrderBook.Represents.{Represents}
use latency_lab.OrderBook.Refinement.{process-defined, new-Represents}
use latency_lab.PooledOrderBook
use latency_lab.PooledOrderBook.{PooledOrderBook}
use latency_lab.PooledOrderBook.Agree.{Agree}
use latency_lab.Resting.{apply_all}
use latency_lab.Generator.Ranges.{generated, generated-IsTypical, IsTypical}
use latency_lab.Generator.Safe.{typical-IsWord, StaySmall-of-typical}
use latency_lab.Generator.Pooled.{generated_feed-Agree}
use latency_lab.Worker.Fold.{fold, fold-none, fold-process, fold-pooled_process}
use latency_lab.Batching.Rounds.{process-append, process_batch-take}
use latency_lab.SingleThread.{measure, run_case, warmup_count, warm_up, single_thread}

-- The times of the messages from the index `i` on.
unfoldable pub durations : (ℕ → ℕ) → ℕ → List MarketMessage → List ℕ
durations duration i [] = []
durations duration i (m ∷ ms) = duration i ∷ durations duration (suc i) ms

pub length-durations :
    (duration : ℕ → ℕ) (i : ℕ) (ms : List MarketMessage)
    → length (durations duration i ms) ≡ length ms
unfolding durations
length-durations duration i [] = refl
length-durations duration i (m ∷ ms) = ap suc (length-durations duration (suc i) ms)

module _ {B : Type 0} (on_message : B → MarketMessage → Option B) where
  measure-fold :
      (duration : ℕ → ℕ) (i : ℕ) (ms : List MarketMessage) (b b' : B) (r : LatencyRecorder)
      → fold on_message (some b) ms ≡ some b'
      → measure on_message duration i ms (b, r)
        ≡ some (b', record { samples = r.samples ++ durations duration i ms })
  unfolding measure fold durations record_sample
  measure-fold duration i [] b b' r h = ap some (
      ap₂ (λ x y. (x, y)) (some_eq h)
        (ap (λ xs. record { samples = xs }) (sym (append-nil r.samples))))
  measure-fold duration i (m ∷ ms) b b' r h = elim (Option-cases (on_message b m)) [
    | inl stuck ↦
        let e : none ≡ some b' =
          sym (fold-none on_message ms) ∙ ap (λ o. fold on_message o ms) (sym stuck) ∙ h in
        cc
    | inr (b₁, runs) ↦
        rw (runs, measure)
          (measure-fold duration (suc i) ms b₁ b' (record_sample r (duration i))
              (ap (λ o. fold on_message o ms) (sym runs) ∙ h)
            ∙ ap (λ xs. some (b', record { samples = xs }))
                (append_assoc r.samples (duration i ∷ []) (durations duration (suc i) ms)))
  ]

  -- A case leaves the book that the messages make, and the time of each message in their order.
  run_case-fold :
      (duration : ℕ → ℕ) (ms : List MarketMessage) (b b' : B)
      → fold on_message (some b) ms ≡ some b'
      → run_case on_message duration ms b ≡ some (b', record { samples = durations duration 0 ms })
  unfolding run_case Metrics.new
  run_case-fold duration ms b b' h = measure-fold duration 0 ms b b' (record { samples = [] }) h

-- The two cases of apps/benchmark_memory_pool.cpp on the generated messages, with at least 10000
-- slots in the pool, or one for each message: both end, with one sample for each message, in its order, and with books that
-- agree on all that they show.
pub run_case-Agree :
    (clock : ℕ → ℕ) (num_messages : ℕ) (symbol : List ℕ) (pool_capacity : ℕ)
    (duration duration' : ℕ → ℕ)
    → min 10000 num_messages ≤ pool_capacity
    → let msgs = generated clock num_messages symbol in
      (b : OrderBook) × (b' : PooledOrderBook) × (run_case OrderBook.on_message duration msgs
          OrderBook.new
        ≡ some (b, record { samples = durations duration 0 msgs }))
      × (run_case PooledOrderBook.on_message duration' msgs (PooledOrderBook.new pool_capacity)
          ≡ some (b', record { samples = durations duration' 0 msgs }))
      × Agree b b'
run_case-Agree clock num_messages symbol pool_capacity duration duration' enough =
    let msgs = generated clock num_messages symbol in
    let (b, b', runs, runs', agree) =
      generated_feed-Agree clock num_messages symbol pool_capacity enough in
    (
      b,
      b',
      run_case-fold OrderBook.on_message duration msgs OrderBook.new b
          (fold-process OrderBook.new msgs ∙ runs),
      run_case-fold PooledOrderBook.on_message duration' msgs (PooledOrderBook.new pool_capacity) b'
          (fold-pooled_process (PooledOrderBook.new pool_capacity) msgs ∙ runs'),
      agree,
    )

All-append :
    (xs ys : List MarketMessage) → All IsTypical xs → All IsTypical ys → All IsTypical (xs ++ ys)
All-append [] ys v w = w
All-append (x ∷ xs) ys v w = (v.0, All-append xs ys v.1 w)

All-take : (k : ℕ) (ms : List MarketMessage) → All IsTypical ms → All IsTypical (take k ms)
All-take zero ms v = tt
All-take (suc k) [] v = tt
All-take (suc k) (m ∷ ms) v = (v.0, All-take k ms v.1)

-- The messages of the warm-up.
abbrev pub warm : List MarketMessage → List MarketMessage
warm msgs = take (min warmup_count (length msgs)) msgs

warm_up-process :
    (msgs : List MarketMessage) (b : OrderBook) → warm_up msgs b ≡ OrderBook.process b (warm msgs)
unfolding warm_up
warm_up-process msgs b = process_batch-take msgs (min warmup_count (length msgs)) 0 b (omega arith)

-- apps/benchmark_single_thread.cpp on the generated messages ends, with one sample for each
-- message, in its order, and with a book that represents the orders which the first messages, at
-- most 1000, and after them all messages make: what the warm-up did stays in the book.
pub single_thread-Represents :
    (clock : ℕ → ℕ) (num_messages : ℕ) (symbol : List ℕ) (duration : ℕ → ℕ)
    → let msgs = generated clock num_messages symbol in
      (b : OrderBook) × (single_thread duration msgs
        ≡ some (b, record { samples = durations duration 0 msgs }))
      × Represents b (apply_all (warm msgs ++ msgs) [])
unfolding single_thread Metrics.new
single_thread-Represents clock num_messages symbol duration =
    let msgs = generated clock num_messages symbol in
    let typical = generated-IsTypical clock num_messages symbol in
    let typical' =
      All-append (warm msgs) msgs (All-take (min warmup_count (length msgs)) msgs typical)
        typical in
    let (b, runs, holds) =
      process-defined OrderBook.new [] (warm msgs ++ msgs) new-Represents
        (typical-IsWord (warm msgs ++ msgs) typical')
        (StaySmall-of-typical [] (warm msgs ++ msgs) (tt, tt) typical') in
    let split : (OrderBook.process OrderBook.new (warm msgs) >>= (λ b'. OrderBook.process b' msgs))
        ≡ some b =
      sym (process-append OrderBook.new (warm msgs) msgs) ∙ runs in
    elim (Option-cases (OrderBook.process OrderBook.new (warm msgs))) [
      | inl stuck ↦
          let e : none ≡ some b =
            ap (λ o. o >>= (λ b'. OrderBook.process b' msgs)) (sym stuck) ∙ split in
          cc
      | inr (b₀, warmed) ↦
          let rest : OrderBook.process b₀ msgs ≡ some b =
            ap (λ o. o >>= (λ b'. OrderBook.process b' msgs)) (sym warmed) ∙ split in
          (
            b,
            rw (warm_up-process msgs OrderBook.new ∙ warmed) (
                measure-fold OrderBook.on_message duration 0 msgs b₀ b (record { samples = [] })
                  (fold-process b₀ msgs ∙ rest)),
            holds,
          )
    ]

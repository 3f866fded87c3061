-- ===== src/Tests/Benchmarks.antt =====
-- Generated feeds, in batches and through the ring.
use latency_lab.Base.{ℕ, ◌≡◌, refl, some, List, [], ◌∷◌, length, get_elem?, arith}
use latency_lab.Message.{MarketMessage}
use latency_lab.OrderBook
use latency_lab.OrderBook.{OrderBook}
use latency_lab.OrderBook.Represents.{Represents}
use latency_lab.Resting.{apply_all}
use latency_lab.Generator.{padded, next_random}
use latency_lab.Generator.Ranges.{IsGenerated, generated, generate_lem}
use latency_lab.Generator.Safe.{generated_feed_defined}
use latency_lab.Metrics
use latency_lab.Batching.{run_all}
use latency_lab.Batching.Rounds.{EndsAs, run_all-EndsAs}
use latency_lab.Tests.Feed.{feed}

-- A clock that has always the same time.
abbrev pub clock : ℕ → ℕ
clock i = 77

-- "AAPL"
abbrev pub aapl : List ℕ
aapl = 65 ∷ 65 ∷ 80 ∷ 76 ∷ []

first_seed : next_random 12345 ≡ 21562465348
unfolding next_random
first_seed = refl

generate_lem_example :
    (length (generated clock 3 aapl) ≡ 3)
    × (length (padded aapl) ≡ 8)
    × ((msg : MarketMessage) × (get_elem? (generated clock 3 aapl) 2 ≡ some msg)
        × IsGenerated clock (padded aapl) 2 msg)
generate_lem_example = generate_lem clock 3 aapl 2 (omega arith)

generated_feed_defined_example :
    (b : OrderBook) × (OrderBook.process OrderBook.new (generated clock 3 aapl) ≡ some b)
    × Represents b (apply_all (generated clock 3 aapl) [])
generated_feed_defined_example = generated_feed_defined clock 3 aapl

run_all-EndsAs_example :
    EndsAs
      (OrderBook.process OrderBook.new feed)
      6
      (run_all (λ i. 40) 4 feed (OrderBook.new, Metrics.new))
unfolding Metrics.new
run_all-EndsAs_example = run_all-EndsAs (λ i. 40) 4 feed OrderBook.new Metrics.new (omega arith)

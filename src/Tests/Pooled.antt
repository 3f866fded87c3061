-- ===== src/Tests/Pooled.antt =====
-- The pooled book's theorems on the small feed, with a pool of seven slots and one of two.
use latency_lab.Base.{◌+◌, ◌%◌, ◌^◌, if◌then◌else◌, refl, ◌≡◌, some, [], arith}
use latency_lab.Message.{buy, sell, add}
use latency_lab.OrderBook
use latency_lab.OrderBook.{OrderBook}
use latency_lab.PooledOrderBook.{
  PooledOrderBook, new, process, on_message, total_orders, exhaustions, handle_add, add_allocated,
  add_to_level, order_of,
}
use latency_lab.PooledOrderBook.Represents.{Represents}
use latency_lab.PooledOrderBook.Refinement.{
  pooled_new-Represents, pooled_on_message-Represents, StayUnwrapped,
}
use latency_lab.ObjectPool
use latency_lab.ObjectPool.{allocate, push_indices}
use latency_lab.PooledOrderBook.Exhaustion.{drops, on_message-exhaustions}
use latency_lab.PooledOrderBook.Agree.{Agree, process-Agree, pooled_orders-length}
use latency_lab.Resting.{apply_within, lookup}
use latency_lab.Tests.Feed.{message, feed, feed_result, feed_words, feed_small}

process-Agree_example :
    (b : OrderBook) × (b' : PooledOrderBook) × (OrderBook.process OrderBook.new feed ≡ some b)
    × (process (new 7) feed ≡ some b')
    × Agree b b'
process-Agree_example = process-Agree 7 feed (omega arith) feed_words feed_small

pooled_on_message-Represents_example :
    (b' : PooledOrderBook) × (on_message (new 2) (message add 1 buy 100 10) ≡ some b')
    × Represents 2 b' (apply_within 2 (message add 1 buy 100 10) [])
unfolding feed_result
pooled_on_message-Represents_example =
    pooled_on_message-Represents 2 (new 2) [] (message add 1 buy 100 10) (pooled_new-Represents 2)
      (omega arith) (λ s p. omega arith)

-- The third order and the fourth find no slot.
full_unwrapped : StayUnwrapped 2 [] feed
unfolding feed_result apply_within
full_unwrapped = (
  λ s p. ground arith,
  (
    λ s p. ground arith,
    (λ s p. ground arith, (λ s p. ground arith, (λ s p. ground arith, (λ s p. ground arith, tt)))),
  ),
)

pooled_orders-length_example : total_orders (new 2) ≡ 0
pooled_orders-length_example = pooled_orders-length 2 (new 2) [] (pooled_new-Represents 2)

-- A book with one slot, taken.
abbrev taken : PooledOrderBook
taken = handle_add (new 1) (message add 1 buy 100 10)

taken-Represents :
    (b' : PooledOrderBook) × (on_message (new 1) (message add 1 buy 100 10) ≡ some b')
    × Represents 1 b' (apply_within 1 (message add 1 buy 100 10) [])
unfolding feed_result
taken-Represents =
    pooled_on_message-Represents 1 (new 1) [] (message add 1 buy 100 10) (pooled_new-Represents 1)
      (omega arith) (λ s p. omega arith)

-- A second order finds no slot.
on_message-exhaustions_example :
    exhaustions (handle_add taken-Represents.0 (message add 2 sell 105 4)) ≡ (
      if drops 1 add
        (lookup 2 (apply_within 1 (message add 1 buy 100 10) []))
        (apply_within 1 (message add 1 buy 100 10) [])
      then (exhaustions taken-Represents.0 + 1) % 2 ^ 64
      else exhaustions taken-Represents.0)
unfolding on_message
on_message-exhaustions_example =
    on_message-exhaustions 1 taken-Represents.0
      (handle_add taken-Represents.0 (message add 2 sell 105 4))
      (apply_within 1 (message add 1 buy 100 10) []) (message add 2 sell 105 4) taken-Represents.2
      refl

taken_runs : exhaustions (handle_add taken (message add 2 sell 105 4)) ≡ 1
unfolding feed_result exhaustions new handle_add add_allocated add_to_level order_of ObjectPool.new
    allocate push_indices
taken_runs = refl

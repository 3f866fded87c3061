-- ===== src/PooledOrderBook/Agree.antt =====
-- The pooled book and the plain book show the same, message for message, as long as the pool has
-- room.
use latency_lab.Base.{
  ℕ, suc, ◌+◌, ◌-◌, ◌<◌, ◌≤◌, ◌≡◌, refl, sym, ◌∙◌, [], ◌∷◌, List, All, Option, some, none, inl, inr,
  length, length-append, subst, arith,
}
use latency_lab.Message.{MessageType, MarketMessage, Side, add, modify, cancel, trade}
use latency_lab.Level.{Order, less, greater}
use latency_lab.OrderBook
use latency_lab.OrderBook.{OrderBook, order_of}
use latency_lab.OrderBook.Represents.{Represents as BookRepresents}
use latency_lab.OrderBook.Refinement.{IsWord, StaySmall, process-defined}
use latency_lab.OrderBook.Refinement.{new-Represents as new_book}
use latency_lab.OrderBook.Queries.{keys-length, total_orders-length}
use latency_lab.OrderBook.Unique.{SideLevels-unique}
use latency_lab.PooledOrderBook.{
  PooledOrderBook, new, process, best_bid, best_ask, total_orders, pool_available, buy_side_levels,
  sell_side_levels,
}
use latency_lab.PooledOrderBook.Entries.{pointer_cases}
use latency_lab.PooledOrderBook.Represents.{Represents}
use latency_lab.PooledOrderBook.Refinement.{
  StayUnwrapped, pooled_process-Represents, pooled_new-Represents,
}
use latency_lab.Resting.{
  Resting, lookup, apply, apply_to, apply_all, apply_within, apply_within_to, apply_all_within,
}
use latency_lab.Resting.Lookup.{length-remove, length-set_quantity}

-- `total_orders` counts the resting orders.
pub pooled_orders-length :
    (limit : ℕ) (b : PooledOrderBook) (os : Resting)
    → Represents limit b os
    → total_orders b ≡ length os
unfolding total_orders
pooled_orders-length limit b os r = keys-length b.order_map os r.distinct r.entries.sorted λ id.
    elim (pointer_cases b.order_map b.order_pool os r.entries id) [
      | inl (missing, new) ↦ rw (missing, new)
      | inr (i, o, found, there, rests) ↦ rw (found, rests)
    ]

-- In a pooled book that represents a list of resting orders, the available slots and the counted
-- orders sum up to the limit of the pool.
pub pool_available-total_orders :
    (limit : ℕ) (b : PooledOrderBook) (os : Resting)
    → Represents limit b os
    → pool_available b + total_orders b ≡ limit
unfolding pool_available
pool_available-total_orders limit b os r = omega (arith, r.room, pooled_orders-length limit b os r)

-- All that the two classes show of one book.
pub record Agree (b : OrderBook) (b' : PooledOrderBook) : Type 0 where
  pub bids : OrderBook.best_bid b ≡ best_bid b'
  pub asks : OrderBook.best_ask b ≡ best_ask b'
  pub orders : OrderBook.total_orders b ≡ total_orders b'
  pub buy_levels : OrderBook.buy_side_levels b ≡ buy_side_levels b'
  pub sell_levels : OrderBook.sell_side_levels b ≡ sell_side_levels b'

-- Two books that hold one list of orders agree.
pub Represents-Agree :
    (limit : ℕ) (b : OrderBook) (b' : PooledOrderBook) (os : Resting)
    → BookRepresents b os
    → Represents limit b' os
    → Agree b b'
unfolding OrderBook.best_bid OrderBook.best_ask OrderBook.buy_side_levels OrderBook.sell_side_levels
    best_bid best_ask buy_side_levels sell_side_levels
Represents-Agree limit b b' os r r' =
    let bids = SideLevels-unique greater Side.buy b.bids b'.bids os r.bids r'.bids in
    let asks = SideLevels-unique less Side.sell b.asks b'.asks os r.asks r'.asks in
    record {
      bids = rw bids;
      asks = rw asks;
      orders = total_orders-length b os r ∙ sym (pooled_orders-length limit b' os r');
      buy_levels = rw bids;
      sell_levels = rw asks;
    }

apply_to-length :
    (t : MessageType) (msg : MarketMessage) (os : Resting) (found : Option Order)
    → lookup msg.order_id os ≡ found
    → length (apply_to t msg found os) ≤ suc (length os)
apply_to-length add msg os none e = omega (arith, length-append os (order_of msg ∷ []))
apply_to-length modify msg os none e = omega arith
apply_to-length cancel msg os none e = omega arith
apply_to-length trade msg os none e = omega arith
apply_to-length add msg os (some o) e = omega arith
apply_to-length modify msg os (some o) e =
    omega (arith, length-set_quantity msg.order_id msg.quantity os)
apply_to-length cancel msg os (some o) e = omega (arith, length-remove msg.order_id os o e)
apply_to-length trade msg os (some o) e = ground (
  arith,
  length-remove msg.order_id os o e,
  length-set_quantity msg.order_id (o.quantity - msg.quantity) os,
)

length-apply : (msg : MarketMessage) (os : Resting) → length (apply msg os) ≤ suc (length os)
unfolding apply
length-apply msg os = apply_to-length msg.type msg os (lookup msg.order_id os) refl

apply_within_to-eq :
    (limit : ℕ) (t : MessageType) (msg : MarketMessage) (found : Option Order) (os : Resting)
    → length os < limit
    → apply_within_to limit t msg found os ≡ apply_to t msg found os
apply_within_to-eq limit add msg none os h = ground arith
apply_within_to-eq limit add msg (some o) os h = refl
apply_within_to-eq limit modify msg found os h = refl
apply_within_to-eq limit cancel msg found os h = refl
apply_within_to-eq limit trade msg found os h = refl

apply_within-eq :
    (limit : ℕ) (msg : MarketMessage) (os : Resting)
    → length os < limit
    → apply_within limit msg os ≡ apply msg os
unfolding apply apply_within
apply_within-eq limit msg os h = apply_within_to-eq limit msg.type msg (lookup msg.order_id os) os h

-- A pool with a slot for each message never drops an order.
apply_all_within-eq :
    (limit : ℕ) (msgs : List MarketMessage) (os : Resting)
    → length os + length msgs ≤ limit
    → apply_all_within limit msgs os ≡ apply_all msgs os
unfolding apply_all apply_all_within
apply_all_within-eq limit [] os h = refl
apply_all_within-eq limit (msg ∷ msgs) os h =
    rw (apply_within-eq limit msg os (omega arith))
      (apply_all_within-eq limit msgs (apply msg os) (omega (arith, length-apply msg os)))

IsSmall-StayUnwrapped :
    (limit : ℕ) (msgs : List MarketMessage) (os : Resting)
    → length os + length msgs ≤ limit
    → StaySmall os msgs
    → StayUnwrapped limit os msgs
IsSmall-StayUnwrapped limit [] os h w = tt
IsSmall-StayUnwrapped limit (msg ∷ msgs) os h w = (
  λ s p. omega (arith, w.0 s p),
  rw (apply_within-eq limit msg os (omega arith))
      (IsSmall-StayUnwrapped limit msgs (apply msg os) (omega (arith, length-apply msg os)) w.1),
)

-- A feed whose levels stay below 2^31 runs to its end on a new plain book and on a new pooled book
-- with a slot for each message, and the two agree on the best bid, the best ask, the number of
-- orders and the numbers of levels.
pub process-Agree :
    (limit : ℕ) (msgs : List MarketMessage)
    → length msgs ≤ limit
    → All IsWord msgs
    → StaySmall [] msgs
    → (b : OrderBook) × (b' : PooledOrderBook) × (OrderBook.process OrderBook.new msgs ≡ some b)
      × (process (new limit) msgs ≡ some b')
      × Agree b b'
process-Agree limit msgs room words small =
    let (b, runs, holds) = process-defined OrderBook.new [] msgs new_book words small in
    let (b', runs', holds') =
      pooled_process-Represents limit (new limit) [] msgs (pooled_new-Represents limit) words
        (IsSmall-StayUnwrapped limit msgs [] (omega arith) small) in
    (
      b,
      b',
      runs,
      runs',
      Represents-Agree limit b b' (apply_all msgs []) holds
          (subst (Represents limit b') (apply_all_within-eq limit msgs [] (omega arith)) holds'),
    )

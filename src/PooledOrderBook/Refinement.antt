-- ===== src/PooledOrderBook/Refinement.antt =====
-- `on_message` of the pooled book against the list of resting orders, of which at most `limit` rest.
use latency_lab.Base.{ℕ, ◌<◌, ◌≡◌, refl, [], ◌∷◌, List, All, some, arith}
use latency_lab.Base.Int.{ℤ, u32_mod}
use latency_lab.StdMap.{find}
use latency_lab.Message.{Side, MessageType, MarketMessage, add, modify, cancel, trade}
use latency_lab.Level.{Order, is_empty}
use latency_lab.OrderBook.Refinement.{IsWord}
use latency_lab.ObjectPool.{ObjectPool, available}
use latency_lab.ObjectPool.Valid.{new-IsValid, length-push_indices}
use latency_lab.ObjectPool
use latency_lab.PooledOrderBook.{PooledOrderBook, new, dispatch, on_message, process, handle_add}
use latency_lab.PooledOrderBook.Represents.{Represents}
use latency_lab.PooledOrderBook.Add.{handle_add-Represents}
use latency_lab.PooledOrderBook.Update.{
  handle_modify-Represents, handle_cancel-Represents, handle_trade-Represents,
}
use latency_lab.Resting.{
  Resting, lookup, ids_at, apply_within, apply_within_to, apply_all_within, quantity_at,
}

-- A new pooled book holds no orders, and has room for `max_orders`.
pub pooled_new-Represents : (max_orders : ℕ) → Represents max_orders (new max_orders) []
unfolding new find is_empty ids_at lookup ObjectPool.new available
pooled_new-Represents max_orders = record {
  bids = record { sorted = tt; levels = λ p. refl };
  asks = record { sorted = tt; levels = λ p. refl };
  entries = record {
    sorted = tt;
    orders = λ id. refl;
    live = λ id i h. cc;
    apart = λ id id' i h h'. cc;
  };
  pool = new-IsValid Order max_orders;
  distinct = tt;
  fits = tt;
  room = omega (arith, length-push_indices max_orders []);
}

-- The open quantity of every level fits a `uint32_t`.
abbrev pub IsUnwrapped : Resting → Type 0
IsUnwrapped os = (s : Side) (p : ℤ) → quantity_at s p os < u32_mod

module _ (limit : ℕ) where
  dispatch-Represents :
      (t : MessageType) (b : PooledOrderBook) (os : Resting) (msg : MarketMessage)
      → Represents limit b os
      → IsWord msg
      → IsUnwrapped os
      → (b' : PooledOrderBook) × (dispatch t b msg ≡ some b')
        × Represents limit b' (apply_within_to limit t msg (lookup msg.order_id os) os)
  dispatch-Represents add b os msg r h k =
      (handle_add b msg, refl, handle_add-Represents limit b os msg r h)
  dispatch-Represents modify b os msg r h k =
      handle_modify-Represents limit b os msg r h (λ o e. k o.side o.price)
  dispatch-Represents cancel b os msg r h k = handle_cancel-Represents limit b os msg r
  dispatch-Represents trade b os msg r h k = handle_trade-Represents limit b os msg r

  -- If a pooled book with a given limit represents a list of resting orders whose levels fit a
  -- uint32_t, and the quantity of a message fits one, then on_message is defined, and the book
  -- afterwards represents the list that the message makes of it where at most that many orders
  -- rest: an order that finds no slot is dropped.
  pub pooled_on_message-Represents :
      (b : PooledOrderBook) (os : Resting) (msg : MarketMessage)
      → Represents limit b os
      → IsWord msg
      → IsUnwrapped os
      → (b' : PooledOrderBook) × (on_message b msg ≡ some b')
        × Represents limit b' (apply_within limit msg os)
  unfolding on_message apply_within
  pooled_on_message-Represents b os msg r h k = dispatch-Represents msg.type b os msg r h k

  -- Every list of orders that a message of the feed meets has levels that fit.
  abbrev pub StayUnwrapped : Resting → List MarketMessage → Type 0
  StayUnwrapped os [] = Unit {0}
  StayUnwrapped os (msg ∷ msgs) = IsUnwrapped os × StayUnwrapped (apply_within limit msg os) msgs

  -- From a pooled book that represents a list of resting orders, a feed of uint32_t quantities that
  -- only meets levels which fit a uint32_t runs to its end without undefined behaviour, also where
  -- the pool runs out, and leaves a book that represents the orders which the messages make within
  -- the limit.
  pub pooled_process-Represents :
      (b : PooledOrderBook) (os : Resting) (msgs : List MarketMessage)
      → Represents limit b os
      → All IsWord msgs
      → StayUnwrapped os msgs
      → (b' : PooledOrderBook) × (process b msgs ≡ some b')
        × Represents limit b' (apply_all_within limit msgs os)
  unfolding process apply_all_within
  pooled_process-Represents b os [] r h k = (b, refl, r)
  pooled_process-Represents b os (msg ∷ msgs) r h k =
      let (b', runs, holds) = pooled_on_message-Represents b os msg r h.0 k.0 in
      let (b'', rest, last) =
        pooled_process-Represents b' (apply_within limit msg os) msgs holds h.1 k.1 in
      (b'', rw runs rest, last)

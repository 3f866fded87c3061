-- ===== src/PooledOrderBook.antt =====
-- include/latency_lab/pooled_order_book.hpp and src/pooled_order_book.cpp: the order book whose orders
-- live in an object pool. `order_map_` holds pointers, which are slots of the pool; a handler that
-- reads through a pointer to no object is undefined, and returns `none`.
pub mod Entries
pub mod Represents
pub mod Add
pub mod Update
pub mod Refinement
pub mod Agree
pub mod Exhaustion
use latency_lab.Base.{
  ℕ, ◌+◌, ◌-◌, ◌%◌, ◌==◌, min, Bool, if◌then◌else◌, List, [], ◌∷◌, ◌++◌, Option, none, some, ◌>>=◌,
}
use latency_lab.Base.Int.{ℤ, pos, ◌+ℤ◌, ◌-ℤ◌, ltb_ℤ, add32, sub32, u32_of}
use latency_lab.StdMap.{Comparator, Map, empty, find, emplace, assign, erase, begin, size}
use latency_lab.Message.{Side, buy, sell, MessageType, add, modify, cancel, trade, MarketMessage}
use latency_lab.Level.{Order, PriceLevel, LevelMap, less, greater, by_id, erase_id, is_empty}
use latency_lab.ObjectPool
use latency_lab.ObjectPool.{ObjectPool, u64_mod, allocate, deallocate, load, store, available}

abbrev pub PointerMap : Type 0
PointerMap = Map ℕ ℕ

abbrev pub OrderPool : Type 0
OrderPool = ObjectPool Order

pub record PooledOrderBook : Type 0 where
  pub bids : LevelMap
  pub asks : LevelMap
  pub order_map : PointerMap
  pub order_pool : OrderPool
  pub pool_exhaustions : ℕ

-- `PooledOrderBook(max_orders)`
unfoldable pub new : ℕ → PooledOrderBook
new max_orders = record {
  bids = empty;
  asks = empty;
  order_map = empty;
  order_pool = ObjectPool.new max_orders;
  pool_exhaustions = 0;
}

-- What a handler's lambda changes: one side, `order_map_` and the pool.
abbrev pub Change : Type 0
Change = Comparator ℤ → LevelMap → LevelMap × PointerMap × OrderPool

-- `if (side == Side::Buy) f(bids_); else f(asks_);`
abbrev pub on_side : Side → Change → PooledOrderBook → PooledOrderBook
on_side buy f b =
    let r = f greater b.bids in record b { bids = r.0; order_map = r.1; order_pool = r.2 }
on_side sell f b =
    let r = f less b.asks in record b { asks = r.0; order_map = r.1; order_pool = r.2 }

unfoldable pub order_of : MarketMessage → Order
order_of msg = record {
  order_id = msg.order_id;
  price = msg.price;
  quantity = msg.quantity;
  side = msg.side;
}

-- the lambda `add_to_level`
unfoldable pub add_to_level : MarketMessage → Comparator ℤ → LevelMap → LevelMap
add_to_level msg c side_map = elim (find c msg.price side_map) [
  | some level ↦
      assign c msg.price
        (record level {
          order_ids = level.order_ids ++ msg.order_id ∷ [];
          total_quantity = add32 level.total_quantity msg.quantity;
        })
        side_map
  | none ↦
      emplace c msg.price
        (record { price = msg.price; order_ids = msg.order_id ∷ []; total_quantity = msg.quantity })
        side_map
]

-- `handle_add` once `allocate` has answered.
unfoldable pub add_allocated :
    PooledOrderBook → MarketMessage → Option ℕ × OrderPool → PooledOrderBook
add_allocated b msg (none, order_pool) = record b {
  order_pool = order_pool;
  pool_exhaustions = (b.pool_exhaustions + 1) % u64_mod;
}
add_allocated b msg (some order, order_pool) =
    on_side msg.side
      (λ c side_map.
        (add_to_level msg c side_map, emplace by_id msg.order_id order b.order_map, order_pool))
      b

unfoldable pub handle_add : PooledOrderBook → MarketMessage → PooledOrderBook
handle_add b msg = elim (find by_id msg.order_id b.order_map) [
  | some order ↦ b
  | none ↦ add_allocated b msg (allocate b.order_pool (order_of msg))
]

-- The new `total_quantity` of `handle_modify`, in `int64_t` arithmetic, which cannot overflow here.
unfoldable pub modify_total : ℕ → ℕ → ℕ → ℕ
modify_total total new_quantity old_quantity =
    let qty_delta = pos new_quantity -ℤ pos old_quantity in
    let updated_quantity = pos total +ℤ qty_delta in
    if ltb_ℤ (pos 0) updated_quantity then u32_of updated_quantity else 0

-- the lambda `modify_level`; `pointer` is `order_it->second`, and `order` the object there
unfoldable pub modify_level : MarketMessage → ℕ → Order → PooledOrderBook → Change
modify_level msg pointer order b c side_map = elim (find c order.price side_map) [
  | none ↦ (side_map, b.order_map, b.order_pool)
  | some level ↦ (
    assign c order.price
        (record level {
          total_quantity = modify_total level.total_quantity msg.quantity order.quantity;
        })
        side_map,
    b.order_map,
    store b.order_pool pointer (record order { quantity = msg.quantity }),
  )
]

unfoldable pub handle_modify : PooledOrderBook → MarketMessage → Option PooledOrderBook
handle_modify b msg = elim (find by_id msg.order_id b.order_map) [
  | none ↦ some b
  | some pointer ↦
      load b.order_pool pointer
      >>= (λ order. some (on_side order.side (modify_level msg pointer order b) b))
]

-- the lambda `cancel_level`
unfoldable pub cancel_level : MarketMessage → Order → Comparator ℤ → LevelMap → LevelMap
cancel_level msg order c side_map = elim (find c order.price side_map) [
  | none ↦ side_map
  | some level ↦
      let order_ids = erase_id msg.order_id level.order_ids in
      let level' : PriceLevel = record level {
        order_ids = order_ids;
        total_quantity = sub32 level.total_quantity order.quantity;
      } in
      let side_map' = assign c order.price level' side_map in
      if is_empty order_ids then erase c order.price side_map' else side_map'
]

unfoldable pub handle_cancel : PooledOrderBook → MarketMessage → Option PooledOrderBook
handle_cancel b msg = elim (find by_id msg.order_id b.order_map) [
  | none ↦ some b
  | some pointer ↦ load b.order_pool pointer >>= (λ order. some (
      on_side order.side
        (λ c side_map. (
          cancel_level msg order c side_map,
          erase by_id msg.order_id b.order_map,
          deallocate b.order_pool (some pointer),
        ))
        b))
]

-- the lambda `trade_level`
unfoldable pub trade_level : MarketMessage → ℕ → Order → PooledOrderBook → Change
trade_level msg pointer order b c side_map = elim (find c order.price side_map) [
  | none ↦ (side_map, b.order_map, b.order_pool)
  | some level ↦
      let trade_qty = min msg.quantity order.quantity in
      let quantity = sub32 order.quantity trade_qty in
      let total = sub32 level.total_quantity trade_qty in
      let order_ids = erase_id msg.order_id level.order_ids in
      let traded : PriceLevel = record level { total_quantity = total } in
      let removed : PriceLevel = record traded { order_ids = order_ids } in
      if quantity == 0
      then (
        if is_empty order_ids
            then erase c order.price (assign c order.price removed side_map)
            else assign c order.price removed side_map,
        erase by_id msg.order_id b.order_map,
        deallocate b.order_pool (some pointer),
      )
      else (
        assign c order.price traded side_map,
        b.order_map,
        store b.order_pool pointer (record order { quantity = quantity }),
      )
]

unfoldable pub handle_trade : PooledOrderBook → MarketMessage → Option PooledOrderBook
handle_trade b msg = elim (find by_id msg.order_id b.order_map) [
  | none ↦ some b
  | some pointer ↦
      load b.order_pool pointer
      >>= (λ order. some (on_side order.side (trade_level msg pointer order b) b))
]

abbrev dispatch : MessageType → PooledOrderBook → MarketMessage → Option PooledOrderBook
dispatch add b msg = some (handle_add b msg)
dispatch modify b msg = handle_modify b msg
dispatch cancel b msg = handle_cancel b msg
dispatch trade b msg = handle_trade b msg

unfoldable pub on_message : PooledOrderBook → MarketMessage → Option PooledOrderBook
on_message b msg = dispatch msg.type b msg

-- A feed of messages.
unfoldable pub process : PooledOrderBook → List MarketMessage → Option PooledOrderBook
process b [] = some b
process b (msg ∷ msgs) = on_message b msg >>= λ b'. process b' msgs

unfoldable pub best_bid : PooledOrderBook → Option PriceLevel
best_bid b = begin b.bids

unfoldable pub best_ask : PooledOrderBook → Option PriceLevel
best_ask b = begin b.asks

unfoldable pub total_orders : PooledOrderBook → ℕ
total_orders b = size b.order_map

unfoldable pub buy_side_levels : PooledOrderBook → ℕ
buy_side_levels b = add32 (size b.bids) 0

unfoldable pub sell_side_levels : PooledOrderBook → ℕ
sell_side_levels b = add32 (size b.asks) 0

unfoldable pub pool_allocations : PooledOrderBook → ℕ
pool_allocations b = b.order_pool.allocations

unfoldable pub pool_deallocations : PooledOrderBook → ℕ
pool_deallocations b = b.order_pool.deallocations

unfoldable pub exhaustions : PooledOrderBook → ℕ
exhaustions b = b.pool_exhaustions

unfoldable pub pool_available : PooledOrderBook → ℕ
pool_available b = available b.order_pool

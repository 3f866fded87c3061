-- ===== src/OrderBook.antt =====
-- include/latency_lab/order_book.hpp and src/order_book.cpp. A handler returns the new book;
-- `none` is the signed overflow of `handle_modify`, which is undefined behaviour.
pub mod Modify
pub mod Represents
pub mod Refinement
pub mod Small
pub mod Queries
pub mod Unique
use latency_lab.Base.{
  ℕ, ◌==◌, min, Bool, if◌then◌else◌, List, [], ◌∷◌, ◌++◌, Option, none, some, ◌>>=◌,
}
use latency_lab.Base.Int.{ℤ, ◌+ℤ◌, ◌-ℤ◌, add32, sub32, int32_of, u32_of, int32}
use latency_lab.StdMap.{Comparator, Map, empty, find, emplace, assign, erase, begin, size}
use latency_lab.Message.{Side, buy, sell, MessageType, add, modify, cancel, trade, MarketMessage}
use latency_lab.Level.{Order, PriceLevel, LevelMap, less, greater, by_id, erase_id, is_empty}

abbrev pub OrderMap : Type 0
OrderMap = Map ℕ Order

pub record OrderBook : Type 0 where
  pub bids : LevelMap
  pub asks : LevelMap
  pub order_map : OrderMap

-- `OrderBook()`
unfoldable pub new : OrderBook
new = record { bids = empty; asks = empty; order_map = empty }

-- `if (side == Side::Buy) f(bids_); else f(asks_);`: `f` works on one side and on `order_map_`.
abbrev pub on_side :
    Side → (Comparator ℤ → LevelMap → OrderMap → LevelMap × OrderMap) → OrderBook → OrderBook
on_side buy f b = let r = f greater b.bids b.order_map in record b { bids = r.0; order_map = r.1 }
on_side sell f b = let r = f less b.asks b.order_map in record b { asks = r.0; order_map = r.1 }

-- The same where `f` may be undefined.
abbrev pub try_on_side :
    Side
    → (Comparator ℤ → LevelMap → OrderMap → Option (LevelMap × OrderMap))
    → OrderBook
    → Option OrderBook
try_on_side buy f b = do
  r ← f greater b.bids b.order_map
  some (record b { bids = r.0; order_map = r.1 })
try_on_side sell f b = do
  r ← f less b.asks b.order_map
  some (record b { asks = r.0; order_map = r.1 })

unfoldable pub order_of : MarketMessage → Order
order_of msg = record {
  order_id = msg.order_id;
  price = msg.price;
  quantity = msg.quantity;
  side = msg.side;
}

-- the lambda `add_to_level`
unfoldable pub add_to_level : MarketMessage → Comparator ℤ → LevelMap → LevelMap
add_to_level msg c side_map = elim (find c msg.price side_map) [
  | some level ↦
      assign c msg.price
        (record level {
          order_ids = level.order_ids ++ msg.order_id ∷ [];
          total_quantity = add32 level.total_quantity msg.quantity;
        })
        side_map
  | none ↦
      emplace c msg.price
        (record { price = msg.price; order_ids = msg.order_id ∷ []; total_quantity = msg.quantity })
        side_map
]

unfoldable pub handle_add : OrderBook → MarketMessage → OrderBook
handle_add b msg = elim (find by_id msg.order_id b.order_map) [
  | some order ↦ b
  | none ↦
      on_side msg.side (λ c side_map order_map. (add_to_level msg c side_map, order_map))
        (record b { order_map = emplace by_id msg.order_id (order_of msg) b.order_map })
]

-- The new `total_quantity` of `handle_modify`, in `int32_t` arithmetic.
unfoldable pub modify_total : ℕ → ℕ → ℕ → Option ℕ
modify_total total new_quantity old_quantity = do
  qty_delta ← int32 (int32_of new_quantity -ℤ int32_of old_quantity)
  sum ← int32 (int32_of total +ℤ qty_delta)
  some (u32_of sum)

-- the lambda `modify_level`
unfoldable pub modify_level :
    MarketMessage → Order → Comparator ℤ → LevelMap → OrderMap → Option (LevelMap × OrderMap)
modify_level msg order c side_map order_map = elim (find c order.price side_map) [
  | some level ↦ modify_total level.total_quantity msg.quantity order.quantity >>= (λ total. some (
    assign c order.price (record level { total_quantity = total }) side_map,
    assign by_id msg.order_id (record order { quantity = msg.quantity }) order_map,
  ))
  | none ↦ some (side_map, order_map)
]

unfoldable pub handle_modify : OrderBook → MarketMessage → Option OrderBook
handle_modify b msg = elim (find by_id msg.order_id b.order_map) [
  | none ↦ some b
  | some order ↦ try_on_side order.side (modify_level msg order) b
]

-- the lambda `cancel_level`
unfoldable pub cancel_level :
    MarketMessage → Order → Comparator ℤ → LevelMap → OrderMap → LevelMap × OrderMap
cancel_level msg order c side_map order_map = elim (find c order.price side_map) [
  | some level ↦
      let order_ids = erase_id msg.order_id level.order_ids in
      let level' : PriceLevel = record level {
        order_ids = order_ids;
        total_quantity = sub32 level.total_quantity order.quantity;
      } in
      let side_map' = assign c order.price level' side_map in
      (
        if is_empty order_ids then erase c order.price side_map' else side_map',
        erase by_id msg.order_id order_map,
      )
  | none ↦ (side_map, erase by_id msg.order_id order_map)
]

unfoldable pub handle_cancel : OrderBook → MarketMessage → OrderBook
handle_cancel b msg = elim (find by_id msg.order_id b.order_map) [
  | none ↦ b
  | some order ↦ on_side order.side (cancel_level msg order) b
]

-- the lambda `trade_level`
unfoldable pub trade_level :
    MarketMessage → Order → Comparator ℤ → LevelMap → OrderMap → LevelMap × OrderMap
trade_level msg order c side_map order_map = elim (find c order.price side_map) [
  | some level ↦
      let trade_qty = min msg.quantity order.quantity in
      let quantity = sub32 order.quantity trade_qty in
      let total = sub32 level.total_quantity trade_qty in
      let order_ids = erase_id msg.order_id level.order_ids in
      let traded : PriceLevel = record level { total_quantity = total } in
      let removed : PriceLevel = record traded { order_ids = order_ids } in
      if quantity == 0
      then (
        if is_empty order_ids
            then erase c order.price (assign c order.price removed side_map)
            else assign c order.price removed side_map,
        erase by_id msg.order_id order_map,
      )
      else (
        assign c order.price traded side_map,
        assign by_id msg.order_id (record order { quantity = quantity }) order_map,
      )
  | none ↦ (side_map, order_map)
]

unfoldable pub handle_trade : OrderBook → MarketMessage → OrderBook
handle_trade b msg = elim (find by_id msg.order_id b.order_map) [
  | none ↦ b
  | some order ↦ on_side order.side (trade_level msg order) b
]

-- the `switch` of `on_message`
abbrev dispatch : MessageType → OrderBook → MarketMessage → Option OrderBook
dispatch add b msg = some (handle_add b msg)
dispatch modify b msg = handle_modify b msg
dispatch cancel b msg = some (handle_cancel b msg)
dispatch trade b msg = some (handle_trade b msg)

unfoldable pub on_message : OrderBook → MarketMessage → Option OrderBook
on_message b msg = dispatch msg.type b msg

-- A feed of messages, as every benchmark's consumer applies it.
unfoldable pub process : OrderBook → List MarketMessage → Option OrderBook
process b [] = some b
process b (msg ∷ msgs) = on_message b msg >>= λ b'. process b' msgs

unfoldable pub best_bid : OrderBook → Option PriceLevel
best_bid b = begin b.bids

unfoldable pub best_ask : OrderBook → Option PriceLevel
best_ask b = begin b.asks

unfoldable pub total_orders : OrderBook → ℕ
total_orders b = size b.order_map

-- `std::uint32_t`: the number of levels is taken modulo 2 ^ 32.
unfoldable pub buy_side_levels : OrderBook → ℕ
buy_side_levels b = add32 (size b.bids) 0

unfoldable pub sell_side_levels : OrderBook → ℕ
sell_side_levels b = add32 (size b.asks) 0

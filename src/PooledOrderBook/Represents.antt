-- ===== src/PooledOrderBook/Represents.antt =====
-- What it means for a pooled book to hold a list of resting orders, and that the two books' lambdas
-- do the same to a side.
use latency_lab.Base.{ℕ, ◌+◌, ◌-◌, ◌%◌, ◌<◌, ◌≤◌, ◌≡◌, refl, length, arith}
use latency_lab.Base.Int.{ℤ, u32_mod}
use latency_lab.StdMap.{Comparator}
use latency_lab.Message.{Side, buy, sell, MarketMessage}
use latency_lab.Level.{Order, LevelMap, less, greater}
use latency_lab.OrderBook
use latency_lab.OrderBook.{OrderMap}
use latency_lab.OrderBook.Represents.{SideLevels, SideLevels-same, comparator_of, other_side}
use latency_lab.ObjectPool.{available}
use latency_lab.ObjectPool.Valid.{IsValid}
use latency_lab.PooledOrderBook.{
  PooledOrderBook, Change, on_side, add_to_level, modify_total, cancel_level, trade_level,
}
use latency_lab.PooledOrderBook.Entries.{Entries}
use latency_lab.Resting.{Resting, level_at, IsDistinct, Fits}

pub record Represents (limit : ℕ) (b : PooledOrderBook) (os : Resting) : Type 0 where
  pub bids : SideLevels greater buy b.bids os
  pub asks : SideLevels less sell b.asks os
  pub entries : Entries b.order_map b.order_pool os
  pub pool : IsValid b.order_pool
  pub distinct : IsDistinct os
  pub fits : Fits os
  -- each slot holds a resting order or is available
  pub room : length os + available b.order_pool ≡ limit

abbrev pub levels_of : Side → PooledOrderBook → LevelMap
levels_of buy b = b.bids
levels_of sell b = b.asks

pub Represents-side :
    (s : Side) {limit : ℕ} {b : PooledOrderBook} {os : Resting}
    → Represents limit b os
    → SideLevels (comparator_of s) s (levels_of s b) os
Represents-side buy r = r.bids
Represents-side sell r = r.asks

-- A change of one side, of `order_map_` and of the pool.
pub on_side-Represents :
    (limit : ℕ) (s : Side) (f : Change) (b : PooledOrderBook) (os os' : Resting)
    → SideLevels (comparator_of s) s (f (comparator_of s) (levels_of s b)).0 os'
    → Entries (f (comparator_of s) (levels_of s b)).1 (f (comparator_of s) (levels_of s b)).2 os'
    → IsValid (f (comparator_of s) (levels_of s b)).2
    → length os' + available (f (comparator_of s) (levels_of s b)).2 ≡ limit
    → SideLevels (comparator_of (other_side s)) (other_side s) (levels_of (other_side s) b) os
    → ((p : ℤ) → level_at (other_side s) p os' ≡ level_at (other_side s) p os)
    → IsDistinct os'
    → Fits os'
    → Represents limit (on_side s f b) os'
on_side-Represents limit buy f b os os' here entries pool room there e d w = record {
  bids = here;
  asks = SideLevels-same less sell b.asks os os' there e;
  entries = entries;
  pool = pool;
  distinct = d;
  fits = w;
  room = room;
}
on_side-Represents limit sell f b os os' here entries pool room there e d w = record {
  bids = SideLevels-same greater buy b.bids os os' there e;
  asks = here;
  entries = entries;
  pool = pool;
  distinct = d;
  fits = w;
  room = room;
}

-- The lambdas of the two books do the same to a side, but for the total of a modified level.
pub add_to_level-same :
    (msg : MarketMessage) (c : Comparator ℤ) (m : LevelMap)
    → add_to_level msg c m ≡ OrderBook.add_to_level msg c m
unfolding add_to_level OrderBook.add_to_level
add_to_level-same msg c m = refl

pub cancel_level-same :
    (msg : MarketMessage) (o : Order) (c : Comparator ℤ) (m : LevelMap) (om : OrderMap)
    → cancel_level msg o c m ≡ (OrderBook.cancel_level msg o c m om).0
unfolding cancel_level OrderBook.cancel_level
cancel_level-same msg o c m om = ground arith

pub trade_level-same :
    (msg : MarketMessage) (i : ℕ) (o : Order) (b : PooledOrderBook) (c : Comparator ℤ)
    (m : LevelMap) (om : OrderMap)
    → (trade_level msg i o b c m).0 ≡ (OrderBook.trade_level msg o c m om).0
unfolding trade_level OrderBook.trade_level
trade_level-same msg i o b c m om = ground arith

-- Where the level's open quantity fits a `uint32_t` the total is the true one, modulo 2 ^ 32.
pub modify_total_sound :
    (total new old : ℕ)
    → total < u32_mod
    → old ≤ total
    → modify_total (total % u32_mod) new old ≡ (total + new - old) % u32_mod
unfolding modify_total
modify_total_sound total new old h k = ground arith

-- Where it does not, and falls by the modification to less than the multiple of 2 ^ 32 that the
-- total has lost, the total sticks at 0.
pub modify_total_clamps :
    (total new old : ℕ) → total % u32_mod + new ≤ old → modify_total (total % u32_mod) new old ≡ 0
unfolding modify_total
modify_total_clamps total new old h = ground arith

-- ===== src/OrderBook/Represents.antt =====
-- What it means for a book to hold a list of resting orders.
pub mod Entries
pub mod Add
pub mod Modify
pub mod Cancel
pub mod Trade
use latency_lab.Base.{ℕ, ◌≡◌, refl, sym, ◌∙◌, true, false, Option, some, ◌%◌, arith}
use latency_lab.Base.Int.{ℤ, u32_mod}
use latency_lab.StdMap.{Comparator, find, IsSorted, same}
use latency_lab.StdMap.Order.{same_refl}
use latency_lab.Message.{Side, buy, sell, same_side}
use latency_lab.Level.{Order, PriceLevel, LevelMap, less, greater, by_id, is_empty}
use latency_lab.OrderBook.{OrderBook, OrderMap, on_side}
use latency_lab.Resting.{Resting, lookup, is_at, ids_at, quantity_at, level_at, IsDistinct, Fits}
use latency_lab.Resting.AtPrice.{ids_at-lookup, is_at-same}

-- One side's map is sorted and has, at each price, the level that the orders make up.
pub record SideLevels (c : Comparator ℤ) (s : Side) (m : LevelMap) (os : Resting) : Type 0 where
  pub sorted : IsSorted c m
  pub levels : (p : ℤ) → find c p m ≡ level_at s p os

-- `order_map_` has each resting order under its identifier, and nothing else.
pub record Orders (m : OrderMap) (os : Resting) : Type 0 where
  pub sorted : IsSorted by_id m
  pub orders : (id : ℕ) → find by_id id m ≡ lookup id os

pub record Represents (b : OrderBook) (os : Resting) : Type 0 where
  pub bids : SideLevels greater buy b.bids os
  pub asks : SideLevels less sell b.asks os
  pub order_map : Orders b.order_map os
  pub distinct : IsDistinct os
  pub fits : Fits os

abbrev pub comparator_of : Side → Comparator ℤ
comparator_of buy = greater
comparator_of sell = less

abbrev pub other_side : Side → Side
other_side buy = sell
other_side sell = buy

abbrev pub levels_of : Side → OrderBook → LevelMap
levels_of buy b = b.bids
levels_of sell b = b.asks

pub other_side-same : (s : Side) → same_side (other_side s) s ≡ false
other_side-same buy = refl
other_side-same sell = refl

pub Represents-side :
    (s : Side) {b : OrderBook} {os : Resting}
    → Represents b os
    → SideLevels (comparator_of s) s (levels_of s b) os
Represents-side buy r = r.bids
Represents-side sell r = r.asks

pub SideLevels-same :
    (c : Comparator ℤ) (s : Side) (m : LevelMap) (os os' : Resting)
    → SideLevels c s m os
    → ((p : ℤ) → level_at s p os' ≡ level_at s p os)
    → SideLevels c s m os'
SideLevels-same c s m os os' v e = record {
  sorted = v.sorted;
  levels = λ p. v.levels p ∙ sym (e p);
}

-- A change of one side and of `order_map_`: the other side has to stay as it was.
pub on_side-Represents :
    (s : Side) (f : Comparator ℤ → LevelMap → OrderMap → LevelMap × OrderMap) (b : OrderBook)
    (os os' : Resting)
    → SideLevels (comparator_of s) s (f (comparator_of s) (levels_of s b) b.order_map).0 os'
    → Orders (f (comparator_of s) (levels_of s b) b.order_map).1 os'
    → SideLevels (comparator_of (other_side s)) (other_side s) (levels_of (other_side s) b) os
    → ((p : ℤ) → level_at (other_side s) p os' ≡ level_at (other_side s) p os)
    → IsDistinct os'
    → Fits os'
    → Represents (on_side s f b) os'
on_side-Represents buy f b os os' here orders there e d w = record {
  bids = here;
  asks = SideLevels-same less sell b.asks os os' there e;
  order_map = orders;
  distinct = d;
  fits = w;
}
on_side-Represents sell f b os os' here orders there e d w = record {
  bids = SideLevels-same greater buy b.bids os os' there e;
  asks = here;
  order_map = orders;
  distinct = d;
  fits = w;
}

-- The level of a resting order, and what it holds.
pub level_of_order :
    (c : Comparator ℤ) (s : Side) (m : LevelMap) (os : Resting)
    → SideLevels c s m os
    → (k : ℕ) (o : Order) → lookup k os ≡ some o
    → o.side ≡ s
    → find c o.price m
      ≡ some (record {
        price = o.price;
        order_ids = ids_at s o.price os;
        total_quantity = quantity_at s o.price os % u32_mod;
      })
level_of_order c s m os v k o h e = ground (
  arith,
  v.levels o.price,
  ids_at-lookup s o.price k os o h,
  is_at-same c s o.price o.price,
  same_refl c o.price,
)

pub levels_of_orders :
    (s : Side) (b : OrderBook) (om : OrderMap)
    → levels_of s (record b { order_map = om }) ≡ levels_of s b
levels_of_orders buy b om = refl
levels_of_orders sell b om = refl

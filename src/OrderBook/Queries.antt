-- ===== src/OrderBook/Queries.antt =====
-- What `best_bid`, `best_ask` and `total_orders` return of a book that holds a list of orders.
use latency_lab.Base.{
  ℕ, suc, ◌≡◌, sym, ◌∙◌, ap, Bool, true, false, Option, none, some, [], ◌∷◌, arith, Option-cases,
  ◌⊎◌, inl, inr, length,
}
use latency_lab.Base.Int.{ℤ}
use latency_lab.StdMap.{Comparator, Map, find, erase, begin, IsSorted}
use latency_lab.StdMap.Order.{erase-IsSorted}
use latency_lab.StdMap.Find.{find-erase}
use latency_lab.StdMap.Unique.{begin-least, size-erase, size-of-empty}
use latency_lab.Message.{Side, buy, sell}
use latency_lab.Level.{Order, PriceLevel, LevelMap, less, greater, by_id, same-by_id}
use latency_lab.OrderBook.{OrderBook, best_bid, best_ask, total_orders}
use latency_lab.OrderBook.Represents.{Represents, SideLevels, level_of_order}
use latency_lab.Resting.{Resting, lookup, level_at, IsDistinct}
use latency_lab.Resting.Lookup.{lookup_absent}

-- A resting order of the side `s`.
abbrev pub RestsOn : Side → Resting → Order → Type 0
RestsOn s os o = (lookup o.order_id os ≡ some o) × (o.side ≡ s)

-- Either nothing rests on the side, or the level shown is the one at a price which no order of the
-- side comes before.
abbrev pub IsBest : Comparator ℤ → Side → Resting → Option PriceLevel → Type 0
IsBest c s os best =
    ((best ≡ none) × ((o : Order) → ¬ RestsOn s os o))
    ⊎ ((p : ℤ) × (level : PriceLevel) × (best ≡ some level)
        × (level_at s p os ≡ some level)
        × ((o : Order) → RestsOn s os o → c.less o.price p ≡ false))

begin-IsBest :
    (c : Comparator ℤ) (s : Side) (m : LevelMap) (os : Resting)
    → SideLevels c s m os
    → IsBest c s os (begin m)
begin-IsBest c s m os v = elim (begin-least c m v.sorted) [
  | inl (e, gone) ↦
      inl (e, λ o r. cc (level_of_order c s m os v o.order_id o r.0 r.1, gone o.price))
  | inr (p, level, e, found, least) ↦ inr (
    p,
    level,
    e,
    sym (v.levels p) ∙ found,
    λ o r. least o.price _ (level_of_order c s m os v o.order_id o r.0 r.1),
  )
]

-- On a book that represents a list of resting orders, best_bid is empty if no buy order rests;
-- otherwise it is the level that the resting buy orders make up at a price that no buy order
-- exceeds.
pub best_bid-IsBest :
    (b : OrderBook) (os : Resting) → Represents b os → IsBest greater buy os (best_bid b)
unfolding best_bid
best_bid-IsBest b os r = begin-IsBest greater buy b.bids os r.bids

-- On a book that represents a list of resting orders, best_ask is empty if no sell order rests;
-- otherwise it is the level that the resting sell orders make up at a price that no sell order
-- falls below.
pub best_ask-IsBest :
    (b : OrderBook) (os : Resting) → Represents b os → IsBest less sell os (best_ask b)
unfolding best_ask
best_ask-IsBest b os r = begin-IsBest less sell b.asks os r.asks

abbrev pub is_some {ℓ} : {A : Type ℓ} → Option A → Bool
is_some none = false
is_some (some a) = true

-- A map with an entry for each resting order, and no other, has their number of entries.
pub keys-length :
    {V : Type 0} (m : Map ℕ V) (os : Resting)
    → IsDistinct os
    → IsSorted by_id m
    → ((id : ℕ) → is_some (find by_id id m) ≡ is_some (lookup id os))
    → length m ≡ length os
unfolding lookup
keys-length m [] d s h = size-of-empty by_id m (λ k. ground (arith, h k))
keys-length m (o ∷ os) d s h = elim (Option-cases (find by_id o.order_id m)) [
  | inl missing ↦ absurd (ground (arith, missing, h o.order_id))
  | inr (v, found) ↦
      size-erase by_id o.order_id v m found
      ∙ ap suc
          (keys-length (erase by_id o.order_id m) os d.1 (erase-IsSorted by_id o.order_id m s) rest)
]
  where
    rest : (id : ℕ) → is_some (find by_id id (erase by_id o.order_id m)) ≡ is_some (lookup id os)
    rest id = ground (
      arith,
      find-erase by_id id o.order_id m s,
      h id,
      same-by_id o.order_id id,
      lookup_absent o.order_id os d.0,
    )

-- On a book that represents a list of resting orders, total_orders is the number of those orders.
pub total_orders-length :
    (b : OrderBook) (os : Resting) → Represents b os → total_orders b ≡ length os
unfolding total_orders
total_orders-length b os r =
    keys-length b.order_map os r.distinct r.order_map.sorted
      (λ id. ap is_some (r.order_map.orders id))

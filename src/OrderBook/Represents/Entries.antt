-- ===== src/OrderBook/Represents/Entries.antt =====
-- The writes to `order_map_` follow the changes of the resting orders.
use latency_lab.Base.{ℕ, ◌≡◌, [], ◌∷◌, ◌++◌, none, some, arith}
use latency_lab.StdMap.{emplace, assign, erase}
use latency_lab.StdMap.Order.{emplace-IsSorted, assign-IsSorted, erase-IsSorted}
use latency_lab.StdMap.Find.{find-emplace, find-assign, find-erase}
use latency_lab.Level.{Order, by_id, same-by_id}
use latency_lab.OrderBook.{OrderMap}
use latency_lab.OrderBook.Represents.{Orders}
use latency_lab.Resting.{Resting, lookup, remove, set_quantity, IsDistinct}
use latency_lab.Resting.Lookup.{lookup-append, lookup-set_quantity, lookup-remove}

module _ (m : OrderMap) (os : Resting) (v : Orders m os) where
  pub emplace-Orders :
      (o : Order)
      → lookup o.order_id os ≡ none
      → Orders (emplace by_id o.order_id o m) (os ++ o ∷ [])
  emplace-Orders o h = record {
    sorted = emplace-IsSorted by_id o.order_id o m v.sorted;
    orders = λ id. ground (
      arith,
      find-emplace by_id id o.order_id o m,
      v.orders o.order_id,
      v.orders id,
      same-by_id o.order_id id,
      lookup-append id os o h,
    );
  }

  pub assign-Orders :
      (k q : ℕ) (o : Order)
      → lookup k os ≡ some o
      → Orders (assign by_id k (record o { quantity = q }) m) (set_quantity k q os)
  assign-Orders k q o h = record {
    sorted = assign-IsSorted by_id k (record o { quantity = q }) m v.sorted;
    orders = λ id. ground (
      arith,
      find-assign by_id id k (record o { quantity = q }) o m,
      v.orders k,
      v.orders id,
      same-by_id k id,
      lookup-set_quantity id k q os,
    );
  }

  pub erase-Orders : (k : ℕ) → IsDistinct os → Orders (erase by_id k m) (remove k os)
  erase-Orders k d = record {
    sorted = erase-IsSorted by_id k m v.sorted;
    orders = λ id. ground (
      arith,
      find-erase by_id id k m v.sorted,
      v.orders id,
      same-by_id k id,
      lookup-remove id k os d,
    );
  }

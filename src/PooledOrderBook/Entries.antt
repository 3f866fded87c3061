-- ===== src/PooledOrderBook/Entries.antt =====
-- `order_map_` and the pool together are the map from identifiers to orders.
use latency_lab.Base.{
  ℕ, ◌≡◌, ap, true, ◌==◌, if◌then◌else◌, [], ◌∷◌, ◌++◌, none, some, ◌>>=◌, arith, Option-cases, ◌⊎◌,
  inl, inr,
}
use latency_lab.StdMap.{find, emplace, erase, IsSorted}
use latency_lab.StdMap.Order.{emplace-IsSorted, erase-IsSorted}
use latency_lab.StdMap.Find.{find-emplace, find-erase}
use latency_lab.Level.{Order, by_id, same-by_id}
use latency_lab.ObjectPool.{load}
use latency_lab.ObjectPool.Valid.{holds_object}
use latency_lab.PooledOrderBook.{PointerMap, OrderPool}
use latency_lab.Resting.{Resting, lookup, remove, set_quantity, IsDistinct}
use latency_lab.Resting.Lookup.{lookup-append, lookup-set_quantity, lookup-remove}

pub record Entries (m : PointerMap) (pool : OrderPool) (os : Resting) : Type 0 where
  pub sorted : IsSorted by_id m
  -- the order under an identifier
  pub orders : (id : ℕ) → (find by_id id m >>= λ i. load pool i) ≡ lookup id os
  -- no pointer dangles
  pub live : (id i : ℕ) → find by_id id m ≡ some i → holds_object (load pool i) ≡ true
  -- no two identifiers share a slot
  pub apart : (id id' i : ℕ) → find by_id id m ≡ some i → find by_id id' m ≡ some i → id ≡ id'

module _ (m : PointerMap) (pool : OrderPool) (os : Resting) (v : Entries m pool os) where
  -- An identifier has a pointer exactly if its order rests, and the pointer leads to that order.
  pub pointer_cases :
      (id : ℕ)
      → ((find by_id id m ≡ none) × (lookup id os ≡ none))
        ⊎ ((i : ℕ) × (o : Order) × (find by_id id m ≡ some i)
            × (load pool i ≡ some o)
            × (lookup id os ≡ some o))
  pointer_cases id = elim (Option-cases (find by_id id m)) [
    | inl missing ↦ inl (missing, ground (arith, missing, v.orders id))
    | inr (i, found) ↦ elim (Option-cases (load pool i)) [
      | inl dangling ↦ cc (v.live id i found, ap holds_object dangling)
      | inr (o, there) ↦ inr (i, o, found, there, ground (arith, v.orders id, found, there))
    ]
  ]

  pub emplace-Entries :
      (i : ℕ) (o : Order) (pool' : OrderPool)
      → lookup o.order_id os ≡ none
      → find by_id o.order_id m ≡ none
      → load pool i ≡ none
      → ((j : ℕ) → load pool' j ≡ (if i == j then some o else load pool j))
      → Entries (emplace by_id o.order_id i m) pool' (os ++ o ∷ [])
  emplace-Entries i o pool' new missing hole loads = record {
    sorted = emplace-IsSorted by_id o.order_id i m v.sorted;
    orders = λ id. elim (pointer_cases id) [
      | inl (gone, none_here) ↦
          ground (arith, gone, none_here, found_after id, lookup-append id os o new, loads i)
      | inr (j, x, found, there, rests) ↦
          ground (arith, found, there, rests, found_after id, lookup-append id os o new, loads j)
    ];
    live = λ id j h. ground (arith, h, found_after id, loads j, v.live id j);
    apart = λ id id' j h h'. ground (
      arith,
      h,
      h',
      found_after id,
      found_after id',
      v.live id j,
      v.live id' j,
      v.apart id id' j,
    );
  }
    where
      found_after :
          (id : ℕ)
          → find by_id id (emplace by_id o.order_id i m)
            ≡ (if o.order_id == id then some i else find by_id id m)
      found_after id =
          ground (arith, find-emplace by_id id o.order_id i m missing, same-by_id o.order_id id)

  -- A write to an order through its pointer.
  pub store-Entries :
      (k i q : ℕ) (o : Order) (pool' : OrderPool)
      → find by_id k m ≡ some i
      → load pool i ≡ some o
      → ((j : ℕ)
          → load pool' j ≡ (if i == j then some (record o { quantity = q }) else load pool j))
      → Entries m pool' (set_quantity k q os)
  store-Entries k i q o pool' found there loads = record {
    sorted = v.sorted;
    orders = λ id. elim (pointer_cases id) [
      | inl (gone, none_here) ↦
          ground (arith, gone, none_here, found, lookup-set_quantity id k q os)
      | inr (j, x, found', there', rests) ↦ ground (
        arith,
        found,
        there,
        found',
        there',
        rests,
        v.apart k id i,
        lookup-set_quantity id k q os,
        loads j,
      )
    ];
    live = λ id j h. ground (arith, h, loads j, v.live id j);
    apart = v.apart;
  }

  -- The removal of an order and of its pointer.
  pub erase-Entries :
      (k i : ℕ) (pool' : OrderPool)
      → IsDistinct os
      → find by_id k m ≡ some i
      → ((j : ℕ) → load pool' j ≡ (if i == j then none else load pool j))
      → Entries (erase by_id k m) pool' (remove k os)
  erase-Entries k i pool' distinct found loads = record {
    sorted = erase-IsSorted by_id k m v.sorted;
    orders = λ id. elim (pointer_cases id) [
      | inl (gone, none_here) ↦
          ground (arith, gone, none_here, found_after id, lookup-remove id k os distinct)
      | inr (j, x, found', there', rests) ↦ ground (
        arith,
        found,
        found',
        there',
        rests,
        found_after id,
        v.apart k id i,
        lookup-remove id k os distinct,
        loads j,
      )
    ];
    live = λ id j h. ground (arith, h, found, found_after id, loads j, v.live id j, v.apart k id i);
    apart =
        λ id id' j h h'. ground (arith, h, h', found_after id, found_after id', v.apart id id' j);
  }
    where
      found_after :
          (id : ℕ) → find by_id id (erase by_id k m) ≡ (if k == id then none else find by_id id m)
      found_after id = ground (arith, find-erase by_id id k m v.sorted, same-by_id k id)

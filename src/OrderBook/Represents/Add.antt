-- ===== src/OrderBook/Represents/Add.antt =====
-- `handle_add` keeps a new order at the end of the resting orders.
use latency_lab.Base.{◌<◌, ◌≡◌, refl, ◌++◌, [], ◌∷◌, none, arith, Option-cases, inl, inr}
use latency_lab.Base.Int.{ℤ, u32_mod, add32}
use latency_lab.StdMap.{Comparator, find, emplace}
use latency_lab.StdMap.Order.{emplace-IsSorted, assign-IsSorted, same→eq}
use latency_lab.StdMap.Find.{find-emplace, find-assign}
use latency_lab.Message.{Side, MarketMessage, add}
use latency_lab.Level.{LevelMap, is_empty→nil, by_id}
use latency_lab.OrderBook.{OrderBook, order_of, add_to_level, handle_add, on_side}
use latency_lab.OrderBook.Represents.{
  SideLevels, Represents, Represents-side, other_side, other_side-same, on_side-Represents,
  comparator_of, levels_of, levels_of_orders,
}
use latency_lab.OrderBook.Represents.Entries.{emplace-Orders}
use latency_lab.Resting.{Resting, lookup, ids_at, level_at, apply_to}
use latency_lab.Resting.AtPrice.{quantity_at_nil, is_at-same}
use latency_lab.Resting.Change.{level_at-append, level_at-append_other}
use latency_lab.Resting.Lookup.{All-append, IsDistinct-append}

module _ (c : Comparator ℤ) (s : Side) (m : LevelMap) (os : Resting) (v : SideLevels c s m os) where
  add_to_level-find :
      (msg : MarketMessage) (p : ℤ)
      → msg.quantity < u32_mod
      → msg.side ≡ s
      → find c p (add_to_level msg c m) ≡ level_at s p (os ++ order_of msg ∷ [])
  unfolding add_to_level order_of add32
  add_to_level-find msg p h e = elim (Option-cases (find c msg.price m)) [
    | inl new ↦ ground (
      arith,
      level_at-append s p os (order_of msg),
      find-emplace c p msg.price
          (record {
            price = msg.price;
            order_ids = msg.order_id ∷ [];
            total_quantity = msg.quantity;
          })
          m new,
      v.levels p,
      v.levels msg.price,
      is_empty→nil (ids_at s msg.price os),
      quantity_at_nil s msg.price os,
      is_at-same c s msg.price p,
      same→eq c msg.price p,
    )
    | inr (level, old) ↦ ground (
      arith,
      level_at-append s p os (order_of msg),
      find-assign c p msg.price
          (record level {
            order_ids = level.order_ids ++ msg.order_id ∷ [];
            total_quantity = add32 level.total_quantity msg.quantity;
          })
          level m old,
      v.levels p,
      v.levels msg.price,
      is_at-same c s msg.price p,
      same→eq c msg.price p,
    )
  ]

  pub add_to_level-SideLevels :
      (msg : MarketMessage)
      → msg.quantity < u32_mod
      → msg.side ≡ s
      → SideLevels c s (add_to_level msg c m) (os ++ order_of msg ∷ [])
  unfolding add_to_level
  add_to_level-SideLevels msg h e = record {
    sorted = grind (arith, emplace-IsSorted, assign-IsSorted, v.sorted);
    levels = λ p. add_to_level-find msg p h e;
  }

add-Represents_new :
    (b : OrderBook) (os : Resting) (msg : MarketMessage)
    → Represents b os
    → msg.quantity < u32_mod
    → lookup msg.order_id os ≡ none
    → Represents
        (on_side msg.side
          (λ c side_map order_map. (add_to_level msg c side_map, order_map))
          (record b { order_map = emplace by_id msg.order_id (order_of msg) b.order_map }))
        (os ++ order_of msg ∷ [])
unfolding order_of
add-Represents_new b os msg r h new =
    on_side-Represents msg.side (λ c side_map order_map. (add_to_level msg c side_map, order_map))
      (record b { order_map = emplace by_id msg.order_id (order_of msg) b.order_map }) os
      (os ++ order_of msg ∷ [])
      (rw levels_of_orders (
        add_to_level-SideLevels (comparator_of msg.side) msg.side (levels_of msg.side b) os
          (Represents-side msg.side r) msg h refl))
      (emplace-Orders b.order_map os r.order_map (order_of msg) new)
      (rw levels_of_orders (Represents-side (other_side msg.side) r))
      (λ p.
        level_at-append_other (other_side msg.side) p msg.side (other_side-same msg.side) os
          (order_of msg) refl)
      (IsDistinct-append os (order_of msg) r.distinct new)
      (All-append (λ o. o.quantity < u32_mod) os (order_of msg) r.fits h)

-- `handle_add` appends the order, or changes nothing where its identifier is taken.
pub handle_add-Represents :
    (b : OrderBook) (os : Resting) (msg : MarketMessage)
    → Represents b os
    → msg.quantity < u32_mod
    → Represents (handle_add b msg) (apply_to add msg (lookup msg.order_id os) os)
unfolding handle_add
handle_add-Represents b os msg r h = elim (Option-cases (lookup msg.order_id os)) [
  | inl new ↦
      rw (new, r.order_map.orders msg.order_id, new, handle_add)
        (add-Represents_new b os msg r h new)
  | inr (o, old) ↦ rw (old, r.order_map.orders msg.order_id, old, handle_add) r
]

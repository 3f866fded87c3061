-- ===== src/OrderBook/Represents/Cancel.antt =====
-- `handle_cancel` removes the order from the resting orders.
use latency_lab.Base.{◌%◌, ◌<◌, ◌≡◌, refl, some, arith, Option-cases, inl, inr}
use latency_lab.Base.Int.{ℤ, u32_mod, sub32, sub32-mod}
use latency_lab.StdMap.{Comparator, find, assign, erase}
use latency_lab.StdMap.Order.{assign-IsSorted, erase-IsSorted, same→eq, same_refl}
use latency_lab.StdMap.Find.{find-erase, find-assign}
use latency_lab.Message.{Side, MarketMessage, cancel}
use latency_lab.Level.{Order, PriceLevel, LevelMap, erase_id, by_id}
use latency_lab.OrderBook.{OrderBook, OrderMap, cancel_level, handle_cancel, on_side}
use latency_lab.OrderBook.Represents.{
  SideLevels, Represents, Represents-side, other_side, other_side-same, on_side-Represents,
  level_of_order, comparator_of, levels_of,
}
use latency_lab.OrderBook.Represents.Entries.{erase-Orders}
use latency_lab.Resting.{Resting, lookup, remove, ids_at, quantity_at, level_at, apply_to}
use latency_lab.Resting.AtPrice.{is_at-same, quantity_at-lookup}
use latency_lab.Resting.Change.{level_at-remove, level_at-remove_other}
use latency_lab.Resting.Lookup.{All-remove, IsDistinct-remove, Fits-lookup}

module _ (c : Comparator ℤ) (s : Side) (m : LevelMap) (os : Resting) (v : SideLevels c s m os) where
  cancel_level-find :
      (msg : MarketMessage) (o : Order) (om : OrderMap) (p : ℤ)
      → lookup msg.order_id os ≡ some o
      → o.side ≡ s
      → o.quantity < u32_mod
      → find c p (cancel_level msg o c m om).0 ≡ level_at s p (remove msg.order_id os)
  unfolding cancel_level
  cancel_level-find msg o om p h e f =
      let ids = erase_id msg.order_id (ids_at s o.price os) in
      let level : PriceLevel = record {
        price = o.price;
        order_ids = ids_at s o.price os;
        total_quantity = quantity_at s o.price os % u32_mod;
      } in
      let level' : PriceLevel = record level {
        order_ids = ids;
        total_quantity = sub32 level.total_quantity o.quantity;
      } in
      ground (
        arith,
        level_of_order c s m os v msg.order_id o h e,
        find-assign c p o.price level' level m,
        find-erase c p o.price (assign c o.price level' m)
            (assign-IsSorted c o.price level' m v.sorted),
        level_at-remove s p msg.order_id os o h,
        v.levels p,
        is_at-same c s o.price p,
        same→eq c o.price p,
        quantity_at-lookup s o.price msg.order_id os o h,
        is_at-same c s o.price o.price,
        same_refl c o.price,
        sub32-mod (quantity_at s o.price os) o.quantity,
      )

  pub cancel_level-SideLevels :
      (msg : MarketMessage) (o : Order) (om : OrderMap)
      → lookup msg.order_id os ≡ some o
      → o.side ≡ s
      → o.quantity < u32_mod
      → SideLevels c s (cancel_level msg o c m om).0 (remove msg.order_id os)
  unfolding cancel_level
  cancel_level-SideLevels msg o om h e f = record {
    sorted = grind (arith, assign-IsSorted, erase-IsSorted, v.sorted);
    levels = λ p. cancel_level-find msg o om p h e f;
  }

cancel_level-order_map :
    (c : Comparator ℤ) (m : LevelMap) (msg : MarketMessage) (o : Order) (om : OrderMap)
    → (cancel_level msg o c m om).1 ≡ erase by_id msg.order_id om
unfolding cancel_level
cancel_level-order_map c m msg o om = ground arith

cancel-Represents_found :
    (b : OrderBook) (os : Resting) (msg : MarketMessage) (o : Order)
    → Represents b os
    → lookup msg.order_id os ≡ some o
    → Represents (on_side o.side (cancel_level msg o) b) (remove msg.order_id os)
cancel-Represents_found b os msg o r h =
    on_side-Represents o.side (cancel_level msg o) b os (remove msg.order_id os)
      (cancel_level-SideLevels (comparator_of o.side) o.side (levels_of o.side b) os
        (Represents-side o.side r) msg o b.order_map h refl
        (Fits-lookup msg.order_id os o r.fits h))
      (rw cancel_level-order_map (erase-Orders b.order_map os r.order_map msg.order_id r.distinct))
      (Represents-side (other_side o.side) r)
      (λ p.
        level_at-remove_other (other_side o.side) p o.side (other_side-same o.side) msg.order_id os
          o h refl)
      (IsDistinct-remove msg.order_id os r.distinct)
      (All-remove (λ o'. o'.quantity < u32_mod) msg.order_id os r.fits)

-- `handle_cancel` removes the order, or changes nothing where there is none.
pub handle_cancel-Represents :
    (b : OrderBook) (os : Resting) (msg : MarketMessage)
    → Represents b os
    → Represents (handle_cancel b msg) (apply_to cancel msg (lookup msg.order_id os) os)
unfolding handle_cancel
handle_cancel-Represents b os msg r = elim (Option-cases (lookup msg.order_id os)) [
  | inl missing ↦ rw (missing, handle_cancel, r.order_map.orders msg.order_id, missing) r
  | inr (o, found) ↦
      rw (found, handle_cancel, r.order_map.orders msg.order_id, found)
        (cancel-Represents_found b os msg o r found)
]

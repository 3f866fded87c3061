-- ===== src/OrderBook/Represents/Trade.antt =====
-- `handle_trade` takes quantity from the order, and removes it when nothing is left.
use latency_lab.Base.{
  ℕ, min, ◌-◌, ◌==◌, if◌then◌else◌, false, Bool-cases, ◌≤◌, ◌%◌, ◌<◌, ◌≡◌, refl, ap, ◌∙◌, ◌+◌, some,
  arith, Option-cases, inl, inr,
}
use latency_lab.Base.Int.{ℤ, u32_mod, sub32, sub32-mod, sub32-eq-sub}
use latency_lab.StdMap.{Comparator, find, assign}
use latency_lab.StdMap.Order.{assign-IsSorted, erase-IsSorted, same→eq, same_refl}
use latency_lab.StdMap.Find.{find-erase, find-assign}
use latency_lab.Message.{Side, MarketMessage, trade, same_side}
use latency_lab.Level.{Order, PriceLevel, LevelMap, erase_id}
use latency_lab.OrderBook.{OrderBook, OrderMap, trade_level, handle_trade, on_side}
use latency_lab.OrderBook.Represents.{
  SideLevels, Orders, Represents, Represents-side, other_side, other_side-same, on_side-Represents,
  level_of_order, comparator_of, levels_of,
}
use latency_lab.OrderBook.Represents.Entries.{erase-Orders, assign-Orders}
use latency_lab.Resting.{
  Resting, lookup, remove, set_quantity, ids_at, quantity_at, level_at, apply_to, Fits, IsDistinct,
}
use latency_lab.Resting.AtPrice.{is_at-same, quantity_at-lookup, ids_at-lookup}
use latency_lab.Resting.Change.{
  level_at-remove, level_at-remove_other, level_at-set_quantity, level_at-set_quantity_other,
}
use latency_lab.Resting.Lookup.{
  All-remove, IsDistinct-set_quantity, Fits-set_quantity, IsDistinct-remove, Fits-lookup,
}

-- What is left of the order, and the list without what was traded.
abbrev pub left : Order → MarketMessage → ℕ
left o msg = o.quantity - msg.quantity

abbrev pub traded : MarketMessage → Order → Resting → Resting
traded msg o os =
    if left o msg == 0 then remove msg.order_id os else set_quantity msg.order_id (left o msg) os

pub left-sub32 :
    (msg : MarketMessage) (o : Order)
    → o.quantity < u32_mod
    → sub32 o.quantity (min msg.quantity o.quantity) ≡ left o msg
left-sub32 msg o h =
    omega (arith, sub32-eq-sub o.quantity (min msg.quantity o.quantity) (omega arith) h)

total-sub32 :
    (msg : MarketMessage) (o : Order) (q : ℕ)
    → o.quantity < u32_mod
    → o.quantity ≤ q
    → sub32 (q % u32_mod) (min msg.quantity o.quantity) ≡ (q + left o msg - o.quantity) % u32_mod
total-sub32 msg o q h k =
    sub32-mod q (min msg.quantity o.quantity) (omega arith) (omega arith)
    ∙ ap (λ n. n % u32_mod) (omega arith)

module _ (c : Comparator ℤ) (s : Side) (m : LevelMap) (os : Resting) (v : SideLevels c s m os) where
  trade_level-find :
      (msg : MarketMessage) (o : Order) (om : OrderMap) (p : ℤ)
      → lookup msg.order_id os ≡ some o
      → o.side ≡ s
      → o.quantity < u32_mod
      → find c p (trade_level msg o c m om).0 ≡ level_at s p (traded msg o os)
  unfolding trade_level
  trade_level-find msg o om p h e f =
      let ids = erase_id msg.order_id (ids_at s o.price os) in
      let level : PriceLevel = record {
        price = o.price;
        order_ids = ids_at s o.price os;
        total_quantity = quantity_at s o.price os % u32_mod;
      } in
      let level' : PriceLevel = record level {
        total_quantity = sub32 level.total_quantity (min msg.quantity o.quantity);
      } in
      let level'' : PriceLevel = record level' { order_ids = ids } in
      let found = level_of_order c s m os v msg.order_id o h e in
      ground (
        arith,
        found,
        find-assign c p o.price level' level m,
        find-assign c p o.price level'' level m,
        find-erase c p o.price (assign c o.price level'' m)
            (assign-IsSorted c o.price level'' m v.sorted),
        level_at-remove s p msg.order_id os o h,
        level_at-set_quantity s p msg.order_id (left o msg) os o h,
        v.levels p,
        is_at-same c s o.price p,
        same→eq c o.price p,
        ids_at-lookup s o.price msg.order_id os o h,
        quantity_at-lookup s o.price msg.order_id os o h,
        is_at-same c s o.price o.price,
        same_refl c o.price,
        left-sub32 msg o f,
        total-sub32 msg o (quantity_at s o.price os) f,
      )

  pub trade_level-SideLevels :
      (msg : MarketMessage) (o : Order) (om : OrderMap)
      → lookup msg.order_id os ≡ some o
      → o.side ≡ s
      → o.quantity < u32_mod
      → SideLevels c s (trade_level msg o c m om).0 (traded msg o os)
  unfolding trade_level
  trade_level-SideLevels msg o om h e f = record {
    sorted = grind (arith, assign-IsSorted, erase-IsSorted, v.sorted);
    levels = λ p. trade_level-find msg o om p h e f;
  }

  trade_level-Orders :
      (msg : MarketMessage) (o : Order) (om : OrderMap)
      → lookup msg.order_id os ≡ some o
      → o.side ≡ s
      → o.quantity < u32_mod
      → Orders om os
      → IsDistinct os
      → Orders (trade_level msg o c m om).1 (traded msg o os)
  unfolding trade_level
  trade_level-Orders msg o om h e f w d =
      let found = level_of_order c s m os v msg.order_id o h e in
      elim (Bool-cases (left o msg == 0)) [
        | inl gone ↦
            rw (found, trade_level, left-sub32 msg o f, gone) (erase-Orders om os w msg.order_id d)
        | inr more ↦
            rw (found, trade_level, left-sub32 msg o f, more)
              (assign-Orders om os w msg.order_id (left o msg) o h)
      ]

pub traded-level_other :
    (s : Side) (p : ℤ) (os : Resting) (msg : MarketMessage) (o : Order)
    → lookup msg.order_id os ≡ some o
    → same_side s o.side ≡ false
    → level_at s p (traded msg o os) ≡ level_at s p os
traded-level_other s p os msg o h e = ground (
  arith,
  level_at-remove_other s p o.side e msg.order_id os o h,
  level_at-set_quantity_other s p o.side e msg.order_id (left o msg) os o h,
)

pub traded-IsDistinct :
    (os : Resting) (msg : MarketMessage) (o : Order) → IsDistinct os → IsDistinct (traded msg o os)
traded-IsDistinct os msg o d = ground (
  arith,
  IsDistinct-remove msg.order_id os d,
  IsDistinct-set_quantity msg.order_id (left o msg) os d,
)

pub traded-Fits :
    (os : Resting) (msg : MarketMessage) (o : Order)
    → o.quantity < u32_mod
    → Fits os
    → Fits (traded msg o os)
traded-Fits os msg o h w = ground (
  arith,
  All-remove (λ o'. o'.quantity < u32_mod) msg.order_id os w,
  Fits-set_quantity msg.order_id (left o msg) os (omega arith) w,
)

trade-Represents_found :
    (b : OrderBook) (os : Resting) (msg : MarketMessage) (o : Order)
    → Represents b os
    → lookup msg.order_id os ≡ some o
    → Represents (on_side o.side (trade_level msg o) b) (traded msg o os)
trade-Represents_found b os msg o r h =
    let fits = Fits-lookup msg.order_id os o r.fits h in
    let here = Represents-side o.side r in
    let c = comparator_of o.side in
    let m = levels_of o.side b in
    on_side-Represents o.side (trade_level msg o) b os (traded msg o os)
      (trade_level-SideLevels c o.side m os here msg o b.order_map h refl fits)
      (trade_level-Orders c o.side m os here msg o b.order_map h refl fits r.order_map r.distinct)
      (Represents-side (other_side o.side) r)
      (λ p. traded-level_other (other_side o.side) p os msg o h (other_side-same o.side))
      (traded-IsDistinct os msg o r.distinct) (traded-Fits os msg o fits r.fits)

-- `handle_trade` takes what the order has, up to the traded quantity, and removes an order that has
-- nothing left; it changes nothing where there is no such order.
pub handle_trade-Represents :
    (b : OrderBook) (os : Resting) (msg : MarketMessage)
    → Represents b os
    → Represents (handle_trade b msg) (apply_to trade msg (lookup msg.order_id os) os)
unfolding handle_trade
handle_trade-Represents b os msg r = elim (Option-cases (lookup msg.order_id os)) [
  | inl missing ↦ rw (missing, handle_trade, r.order_map.orders msg.order_id, missing) r
  | inr (o, found) ↦
      rw (found, handle_trade, r.order_map.orders msg.order_id, found)
        (trade-Represents_found b os msg o r found)
]

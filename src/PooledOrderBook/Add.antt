-- ===== src/PooledOrderBook/Add.antt =====
-- `handle_add` of the pooled book against the list of resting orders.
use latency_lab.Base.{
  ℕ, suc, ◌<◌, ◌≤◌, ◌≡◌, refl, sym, ◌++◌, [], ◌∷◌, true, false, inl, inr, ◌==◌, ltb, if◌then◌else◌,
  some, none, length, length-append, subst, arith,
}
use latency_lab.Base.Int.{u32_mod}
use latency_lab.StdMap.{find, emplace}
use latency_lab.Message.{MarketMessage, add}
use latency_lab.Level.{by_id}
use latency_lab.OrderBook
use latency_lab.OrderBook.Represents.{comparator_of, other_side, other_side-same}
use latency_lab.OrderBook.Represents.Add.{add_to_level-SideLevels}
use latency_lab.ObjectPool.{allocate, load, available}
use latency_lab.ObjectPool.Valid.{IsValid}
use latency_lab.ObjectPool.Slots.{allocate_lem, allocate-IsValid}
use latency_lab.PooledOrderBook.{
  PooledOrderBook, OrderPool, order_of, add_to_level, add_allocated, handle_add,
}
use latency_lab.PooledOrderBook.Entries.{pointer_cases, emplace-Entries}
use latency_lab.PooledOrderBook.Represents.{
  Represents, Represents-side, levels_of, on_side-Represents, add_to_level-same,
}
use latency_lab.Resting.{Resting, lookup, apply_within_to}
use latency_lab.Resting.Change.{level_at-append_other}
use latency_lab.Resting.Lookup.{All-append, IsDistinct-append}

module _ (limit : ℕ) (b : PooledOrderBook) (os : Resting) (msg : MarketMessage)
    (r : Represents limit b os) where
  -- A pool with no slot left: the order is dropped, and counted.
  dropped-Represents :
      available b.order_pool ≡ 0 → Represents limit (add_allocated b msg (none, b.order_pool)) os
  unfolding add_allocated
  dropped-Represents full = record {
    bids = r.bids;
    asks = r.asks;
    entries = r.entries;
    pool = r.pool;
    distinct = r.distinct;
    fits = r.fits;
    room = r.room;
  }

  added-Represents :
      (i : ℕ) (pool' : OrderPool)
      → msg.quantity < u32_mod
      → lookup msg.order_id os ≡ none
      → find by_id msg.order_id b.order_map ≡ none
      → load b.order_pool i ≡ none
      → ((j : ℕ) → load pool' j ≡ (if i == j then some (order_of msg) else load b.order_pool j))
      → available b.order_pool ≡ suc (available pool')
      → IsValid pool'
      → Represents limit (add_allocated b msg (some i, pool')) (os ++ order_of msg ∷ [])
  unfolding add_allocated order_of OrderBook.order_of
  added-Represents i pool' h new missing hole loads fewer valid =
      on_side-Represents limit msg.side
        (λ c side_map.
          (add_to_level msg c side_map, emplace by_id msg.order_id i b.order_map, pool'))
        b os (os ++ order_of msg ∷ [])
        (rw add_to_level-same (
          add_to_level-SideLevels (comparator_of msg.side) msg.side (levels_of msg.side b) os
            (Represents-side msg.side r) msg h refl))
        (emplace-Entries b.order_map b.order_pool os r.entries i (order_of msg) pool' new missing
          hole loads)
        valid (omega (arith, r.room, length-append os (order_of msg ∷ [])))
        (Represents-side (other_side msg.side) r)
        (λ p.
          level_at-append_other (other_side msg.side) p msg.side (other_side-same msg.side) os
            (order_of msg) refl)
        (IsDistinct-append os (order_of msg) r.distinct new)
        (All-append (λ o. o.quantity < u32_mod) os (order_of msg) r.fits h)

  add-Represents_new :
      msg.quantity < u32_mod
      → lookup msg.order_id os ≡ none
      → find by_id msg.order_id b.order_map ≡ none
      → Represents limit
          (add_allocated b msg (allocate b.order_pool (order_of msg)))
          (if ltb (length os) limit then os ++ order_of msg ∷ [] else os)
  add-Represents_new h new missing = elim (allocate_lem b.order_pool (order_of msg) r.pool) [
    | inl (full, e) ↦ rw (e, lt_false (omega (arith, r.room))) (dropped-Represents full)
    | inr (i, e, hole, loads, fewer) ↦ rw (lt_true (omega (arith, r.room))) (
        subst (λ x. Represents limit (add_allocated b msg x) (os ++ order_of msg ∷ []))
          (λ k. (sym e k, (allocate b.order_pool (order_of msg)).1))
          (added-Represents i (allocate b.order_pool (order_of msg)).1 h new missing hole loads
            fewer (allocate-IsValid b.order_pool (order_of msg) r.pool)))
  ]
    where
      lt_false : limit ≤ length os → ltb (length os) limit ≡ false
      lt_false k = ground arith

      lt_true : length os < limit → ltb (length os) limit ≡ true
      lt_true k = ground arith

  -- `handle_add` appends the order where its identifier is new and a slot is left, and leaves the
  -- orders as they are otherwise.
  pub handle_add-Represents :
      msg.quantity < u32_mod
      → Represents limit
          (handle_add b msg)
          (apply_within_to limit add msg (lookup msg.order_id os) os)
  unfolding handle_add OrderBook.order_of order_of
  handle_add-Represents h =
      elim (pointer_cases b.order_map b.order_pool os r.entries msg.order_id) [
        | inl (missing, new) ↦ rw (missing, new, handle_add) (add-Represents_new h new missing)
        | inr (i, o, found, there, rests) ↦ rw (found, rests, handle_add) r
      ]

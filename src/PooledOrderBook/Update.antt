-- ===== src/PooledOrderBook/Update.antt =====
-- `handle_modify`, `handle_cancel` and `handle_trade` of the pooled book against the list of resting
-- orders. None reads through a dangling pointer.
use latency_lab.Base.{
  ℕ, ◌+◌, ◌-◌, ◌%◌, ◌<◌, ◌≡◌, refl, [], Bool-cases, inl, inr, ◌==◌, some, none, length, arith,
}
use latency_lab.Base.Int.{ℤ, u32_mod}
use latency_lab.StdMap.{Comparator, find, erase, assign}
use latency_lab.Message.{MarketMessage, modify, cancel, trade}
use latency_lab.Level.{Order, LevelMap, by_id}
use latency_lab.OrderBook.Represents.{comparator_of, other_side, other_side-same, level_of_order}
use latency_lab.OrderBook.Represents.Cancel.{cancel_level-SideLevels}
use latency_lab.OrderBook.Represents.Trade.{
  left, traded, left-sub32, traded-level_other, traded-IsDistinct, traded-Fits,
  trade_level-SideLevels,
}
use latency_lab.OrderBook.Represents.Modify.{modified-SideLevels, level_quantity, level_here}
use latency_lab.ObjectPool.{deallocate, load, store, available}
use latency_lab.ObjectPool.Valid.{IsValid}
use latency_lab.ObjectPool.Slots.{
  deallocate_lem, deallocate-IsValid, load-store, store-IsValid, object-IsUsed,
}
use latency_lab.PooledOrderBook.{
  PooledOrderBook, on_side, modify_total, modify_level, handle_modify, cancel_level, handle_cancel,
  trade_level, handle_trade,
}
use latency_lab.PooledOrderBook.Entries.{Entries, pointer_cases, store-Entries, erase-Entries}
use latency_lab.PooledOrderBook.Represents.{
  Represents, Represents-side, levels_of, on_side-Represents, cancel_level-same, trade_level-same,
  modify_total_sound,
}
use latency_lab.Resting.{Resting, lookup, remove, set_quantity, apply_to}
use latency_lab.Resting.AtPrice.{quantity_at-lookup, here-is_at}
use latency_lab.Resting.Change.{level_at-remove_other, level_at-set_quantity_other}
use latency_lab.Resting.Lookup.{
  All-remove, IsDistinct-remove, IsDistinct-set_quantity, Fits-lookup, Fits-set_quantity,
  length-remove, length-set_quantity,
}

module _ (limit : ℕ) (b : PooledOrderBook) (os : Resting) (msg : MarketMessage)
    (r : Represents limit b os) where
  -- What the three handlers do where the order is unknown.
  pub handle_missing :
      find by_id msg.order_id b.order_map ≡ none
      → (handle_modify b msg ≡ some b)
        × (handle_cancel b msg ≡ some b)
        × (handle_trade b msg ≡ some b)
  unfolding handle_modify handle_cancel handle_trade
  handle_missing e = (rw (e, handle_modify), rw (e, handle_cancel), rw (e, handle_trade))

  module _ (i : ℕ) (o : Order) (found : find by_id msg.order_id b.order_map ≡ some i)
      (there : load b.order_pool i ≡ some o) (rests : lookup msg.order_id os ≡ some o) where
    abbrev c : Comparator ℤ
    c = comparator_of o.side

    abbrev m : LevelMap
    m = levels_of o.side b

    fits : o.quantity < u32_mod
    fits = Fits-lookup msg.order_id os o r.fits rests

    -- A write to the order keeps the entries and the room.
    stored :
        (q : ℕ)
        → Entries b.order_map
            (store b.order_pool i (record o { quantity = q }))
            (set_quantity msg.order_id q os)
    stored q =
        store-Entries b.order_map b.order_pool os r.entries msg.order_id i q o
          (store b.order_pool i (record o { quantity = q })) found there
          (λ j.
            load-store b.order_pool i j (record o { quantity = q }) r.pool
              (object-IsUsed b.order_pool i r.pool there))

    removed :
        Entries
          (erase by_id msg.order_id b.order_map)
          (deallocate b.order_pool (some i))
          (remove msg.order_id os)
    removed =
        erase-Entries b.order_map b.order_pool os r.entries msg.order_id i
          (deallocate b.order_pool (some i)) r.distinct found
          (deallocate_lem b.order_pool i o r.pool (object-IsUsed b.order_pool i r.pool there)).0

    removed_room :
        length (remove msg.order_id os) + available (deallocate b.order_pool (some i)) ≡ limit
    removed_room = omega (
      arith,
      r.room,
      length-remove msg.order_id os o rests,
      (deallocate_lem b.order_pool i o r.pool (object-IsUsed b.order_pool i r.pool there)).1,
    )

    stored_room :
        (q : ℕ)
        → length (set_quantity msg.order_id q os)
            + available (store b.order_pool i (record o { quantity = q }))
          ≡ limit
    unfolding available store
    stored_room q = omega (arith, r.room, length-set_quantity msg.order_id q os)

    cancel_found :
        (b' : PooledOrderBook) × (handle_cancel b msg ≡ some b')
        × Represents limit b' (remove msg.order_id os)
    unfolding handle_cancel
    cancel_found = (
      on_side o.side
          (λ c side_map. (
            cancel_level msg o c side_map,
            erase by_id msg.order_id b.order_map,
            deallocate b.order_pool (some i),
          ))
          b,
      rw (found, there, handle_cancel),
      on_side-Represents limit o.side
          (λ c side_map. (
            cancel_level msg o c side_map,
            erase by_id msg.order_id b.order_map,
            deallocate b.order_pool (some i),
          ))
          b os (remove msg.order_id os)
          (rw (cancel_level-same msg o c m []) (
            cancel_level-SideLevels c o.side m os (Represents-side o.side r) msg o [] rests refl
              fits))
          removed
          (deallocate-IsValid b.order_pool i r.pool (object-IsUsed b.order_pool i r.pool there))
          removed_room (Represents-side (other_side o.side) r)
          (λ p.
            level_at-remove_other (other_side o.side) p o.side (other_side-same o.side) msg.order_id
              os o rests refl)
          (IsDistinct-remove msg.order_id os r.distinct)
          (All-remove (λ o'. o'.quantity < u32_mod) msg.order_id os r.fits),
    )

    -- The level of the order, as its side's map holds it.
    level : find c o.price m ≡ some (level_here o.side o os)
    level = level_of_order c o.side m os (Represents-side o.side r) msg.order_id o rests refl

    -- The pool and the pointers after a trade.
    trade_pool :
        Entries (trade_level msg i o b c m).1 (trade_level msg i o b c m).2 (traded msg o os)
        × IsValid (trade_level msg i o b c m).2
        × (length (traded msg o os) + available (trade_level msg i o b c m).2 ≡ limit)
    unfolding trade_level
    trade_pool =
        let used = object-IsUsed b.order_pool i r.pool there in
        elim (Bool-cases (left o msg == 0)) [
          | inl gone ↦
              rw (level, trade_level, left-sub32 msg o fits, gone)
                (removed, deallocate-IsValid b.order_pool i r.pool used, removed_room)
          | inr more ↦
              rw (level, trade_level, left-sub32 msg o fits, more)
                (
                  stored (left o msg),
                  store-IsValid b.order_pool i (record o { quantity = left o msg }) r.pool used,
                  stored_room (left o msg),
                )
        ]

    trade_found :
        (b' : PooledOrderBook) × (handle_trade b msg ≡ some b')
        × Represents limit b' (traded msg o os)
    unfolding handle_trade
    trade_found =
        let (entries, valid, room) = trade_pool in
        (
          on_side o.side (trade_level msg i o b) b,
          rw (found, there, handle_trade),
          on_side-Represents limit o.side (trade_level msg i o b) b os (traded msg o os)
              (rw (trade_level-same msg i o b c m []) (
                trade_level-SideLevels c o.side m os (Represents-side o.side r) msg o [] rests refl
                  fits))
              entries valid room (Represents-side (other_side o.side) r)
              (λ p.
                traded-level_other (other_side o.side) p os msg o rests (other_side-same o.side))
              (traded-IsDistinct os msg o r.distinct) (traded-Fits os msg o fits r.fits),
        )

    -- What `modify_level` does, with the level known.
    modify_level-eq : modify_level msg i o b c m ≡ (
      assign c o.price
          (record (level_here o.side o os) {
            total_quantity = modify_total (level_quantity o os % u32_mod) msg.quantity o.quantity;
          })
          m,
      b.order_map,
      store b.order_pool i (record o { quantity = msg.quantity }),
    )
    unfolding modify_level
    modify_level-eq = rw (level, modify_level)

    modify_total-eq :
        level_quantity o os < u32_mod
        → modify_total (level_quantity o os % u32_mod) msg.quantity o.quantity
          ≡ (level_quantity o os + msg.quantity - o.quantity) % u32_mod
    modify_total-eq small =
        modify_total_sound (level_quantity o os) msg.quantity o.quantity small
          (quantity_at-lookup o.side o.price msg.order_id os o rests (here-is_at o))

    modify_found :
        msg.quantity < u32_mod
        → level_quantity o os < u32_mod
        → (b' : PooledOrderBook) × (handle_modify b msg ≡ some b')
          × Represents limit b' (set_quantity msg.order_id msg.quantity os)
    unfolding handle_modify
    modify_found h small = (
      on_side o.side (modify_level msg i o b) b,
      rw (found, there, handle_modify),
      on_side-Represents limit o.side (modify_level msg i o b) b os
          (set_quantity msg.order_id msg.quantity os)
          (rw modify_level-eq (
            modified-SideLevels c o.side m os (Represents-side o.side r) msg o []
              (modify_total (level_quantity o os % u32_mod) msg.quantity o.quantity) rests refl
              (modify_total-eq small)))
          (rw modify_level-eq (stored msg.quantity))
          (rw modify_level-eq (
            store-IsValid b.order_pool i (record o { quantity = msg.quantity }) r.pool
              (object-IsUsed b.order_pool i r.pool there)))
          (rw modify_level-eq (stored_room msg.quantity)) (Represents-side (other_side o.side) r)
          (λ p.
            level_at-set_quantity_other (other_side o.side) p o.side (other_side-same o.side)
              msg.order_id msg.quantity os o rests refl)
          (IsDistinct-set_quantity msg.order_id msg.quantity os r.distinct)
          (Fits-set_quantity msg.order_id msg.quantity os h r.fits),
    )

  -- `handle_modify` gives the order its new quantity, where its level's open quantity fits a
  -- `uint32_t`.
  pub handle_modify-Represents :
      msg.quantity < u32_mod
      → ((o : Order) → lookup msg.order_id os ≡ some o → level_quantity o os < u32_mod)
      → (b' : PooledOrderBook) × (handle_modify b msg ≡ some b')
        × Represents limit b' (apply_to modify msg (lookup msg.order_id os) os)
  handle_modify-Represents h small =
      elim (pointer_cases b.order_map b.order_pool os r.entries msg.order_id) [
        | inl (missing, new) ↦ rw new (b, (handle_missing missing).0, r)
        | inr (i, o, found, there, rests) ↦
            rw rests (modify_found i o found there rests h (small o rests))
      ]

  -- `handle_cancel` removes the order and gives its slot back.
  pub handle_cancel-Represents :
      (b' : PooledOrderBook) × (handle_cancel b msg ≡ some b')
      × Represents limit b' (apply_to cancel msg (lookup msg.order_id os) os)
  handle_cancel-Represents =
      elim (pointer_cases b.order_map b.order_pool os r.entries msg.order_id) [
        | inl (missing, new) ↦ rw new (b, (handle_missing missing).1, r)
        | inr (i, o, found, there, rests) ↦ rw rests (cancel_found i o found there rests)
      ]

  -- `handle_trade` takes quantity from the order, and gives its slot back when nothing is left.
  pub handle_trade-Represents :
      (b' : PooledOrderBook) × (handle_trade b msg ≡ some b')
      × Represents limit b' (apply_to trade msg (lookup msg.order_id os) os)
  handle_trade-Represents =
      elim (pointer_cases b.order_map b.order_pool os r.entries msg.order_id) [
        | inl (missing, new) ↦ rw new (b, (handle_missing missing).2, r)
        | inr (i, o, found, there, rests) ↦ rw rests (trade_found i o found there rests)
      ]

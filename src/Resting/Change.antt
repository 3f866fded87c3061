-- ===== src/Resting/Change.antt =====
-- The level at a price after each change of the list of resting orders, as the books store it.
use latency_lab.Base.{ℕ, ◌+◌, ◌-◌, ◌%◌, ◌≡◌, false, if◌then◌else◌, [], ◌∷◌, ◌++◌, some, arith}
use latency_lab.Base.Int.{ℤ, u32_mod}
use latency_lab.Message.{Side, same_side}
use latency_lab.Level.{Order, erase_id, is_empty-append}
use latency_lab.Resting.{
  Resting, lookup, remove, set_quantity, is_at, ids_at, quantity_at, level_of, level_at,
}
use latency_lab.Resting.AtPrice.{
  ids_at-append, quantity_at-append, ids_at-set_quantity, quantity_at-set_quantity, ids_at-remove,
  quantity_at-remove, is_at_other,
}

module _ (s : Side) (p : ℤ) where
  -- A new order joins the level at its price, or makes one.
  pub level_at-append :
      (os : Resting) (o : Order)
      → level_at s p (os ++ o ∷ []) ≡ (
          if is_at s p o.side o.price
          then some (record {
            price = p;
            order_ids = ids_at s p os ++ o.order_id ∷ [];
            total_quantity = (quantity_at s p os + o.quantity) % u32_mod;
          })
          else level_at s p os)
  level_at-append os o = ground (
    arith,
    ids_at-append s p os o,
    quantity_at-append s p os o,
    is_empty-append (ids_at s p os) o.order_id,
  )

  -- A cancelled order leaves its level; the level goes with its last order.
  pub level_at-remove :
      (k : ℕ) (os : Resting) (o : Order)
      → lookup k os ≡ some o
      → level_at s p (remove k os) ≡ (
          if is_at s p o.side o.price
          then level_of p (erase_id k (ids_at s p os)) (quantity_at s p os - o.quantity)
          else level_at s p os)
  level_at-remove k os o h =
      ground (arith, ids_at-remove s p k os o h, quantity_at-remove s p k os o h)

  -- A changed quantity changes the total alone.
  pub level_at-set_quantity :
      (k q : ℕ) (os : Resting) (o : Order)
      → lookup k os ≡ some o
      → level_at s p (set_quantity k q os) ≡ (
          if is_at s p o.side o.price
          then level_of p (ids_at s p os) (quantity_at s p os + q - o.quantity)
          else level_at s p os)
  level_at-set_quantity k q os o h =
      ground (arith, ids_at-set_quantity s p k q os, quantity_at-set_quantity s p k q os o h)

  module _ (s' : Side) (other : same_side s s' ≡ false) where
    pub level_at-append_other :
        (os : Resting) (o : Order) → o.side ≡ s' → level_at s p (os ++ o ∷ []) ≡ level_at s p os
    level_at-append_other os o e =
        ground (arith, level_at-append os o, is_at_other s s' o.price p other)

    pub level_at-remove_other :
        (k : ℕ) (os : Resting) (o : Order)
        → lookup k os ≡ some o
        → o.side ≡ s'
        → level_at s p (remove k os) ≡ level_at s p os
    level_at-remove_other k os o h e =
        ground (arith, level_at-remove k os o h, is_at_other s s' o.price p other)

    pub level_at-set_quantity_other :
        (k q : ℕ) (os : Resting) (o : Order)
        → lookup k os ≡ some o
        → o.side ≡ s'
        → level_at s p (set_quantity k q os) ≡ level_at s p os
    level_at-set_quantity_other k q os o h e =
        ground (arith, level_at-set_quantity k q os o h, is_at_other s s' o.price p other)

-- ===== src/Resting/AtPrice.antt =====
-- The level at a price after each change of the list of resting orders.
use latency_lab.Base.{
  ℕ, ◌+◌, ◌≤◌, ◌≡◌, refl, sym, ◌∙◌, true, false, if◌then◌else◌, [], ◌∷◌, ◌++◌, some, arith,
}
use latency_lab.Base.Int.{ℤ}
use latency_lab.Message.{Side, buy, sell, same_side}
use latency_lab.Level.{Order, greater, erase_id, is_empty, same-eqb_ℤ}
use latency_lab.StdMap.{Comparator, same}
use latency_lab.StdMap.Order.{same_refl}
use latency_lab.Resting.{
  Resting, lookup, remove, set_quantity, is_at, ids_at, quantity_at, sum_quantities,
}

module _ (s : Side) (p : ℤ) where
  pub ids_at-append :
      (os : Resting) (o : Order)
      → ids_at s p (os ++ o ∷ [])
        ≡ (if is_at s p o.side o.price then ids_at s p os ++ o.order_id ∷ [] else ids_at s p os)
  unfolding ids_at
  ids_at-append [] o = refl
  ids_at-append (x ∷ os) o = ground (arith, ids_at-append os o)

  pub quantity_at-append :
      (os : Resting) (o : Order)
      → quantity_at s p (os ++ o ∷ [])
        ≡ (if is_at s p o.side o.price then quantity_at s p os + o.quantity else quantity_at s p os)
  unfolding quantity_at
  quantity_at-append [] o = ground arith
  quantity_at-append (x ∷ os) o = ground (arith, quantity_at-append os o)

  pub ids_at-set_quantity :
      (k q : ℕ) (os : Resting) → ids_at s p (set_quantity k q os) ≡ ids_at s p os
  unfolding ids_at set_quantity
  ids_at-set_quantity k q [] = refl
  ids_at-set_quantity k q (x ∷ os) = ground (arith, ids_at-set_quantity k q os)

  pub quantity_at-set_quantity :
      (k q : ℕ) (os : Resting) (o : Order)
      → lookup k os ≡ some o
      → (if is_at s p o.side o.price
          then quantity_at s p (set_quantity k q os) + o.quantity
          else quantity_at s p (set_quantity k q os))
        ≡ (if is_at s p o.side o.price then quantity_at s p os + q else quantity_at s p os)
  unfolding quantity_at set_quantity lookup
  quantity_at-set_quantity k q [] o h = cc
  quantity_at-set_quantity k q (x ∷ os) o h = ground (arith, quantity_at-set_quantity k q os o)

  pub ids_at-remove :
      (k : ℕ) (os : Resting) (o : Order)
      → lookup k os ≡ some o
      → ids_at s p (remove k os)
        ≡ (if is_at s p o.side o.price then erase_id k (ids_at s p os) else ids_at s p os)
  unfolding ids_at remove lookup erase_id
  ids_at-remove k [] o h = cc
  ids_at-remove k (x ∷ os) o h = ground (arith, ids_at-remove k os o)

  pub quantity_at-remove :
      (k : ℕ) (os : Resting) (o : Order)
      → lookup k os ≡ some o
      → (if is_at s p o.side o.price
          then quantity_at s p (remove k os) + o.quantity
          else quantity_at s p (remove k os))
        ≡ quantity_at s p os
  unfolding quantity_at remove lookup
  quantity_at-remove k [] o h = cc
  quantity_at-remove k (x ∷ os) o h = ground (arith, quantity_at-remove k os o)

  pub quantity_at_nil : (os : Resting) → ids_at s p os ≡ [] → quantity_at s p os ≡ 0
  unfolding ids_at quantity_at
  quantity_at_nil [] h = refl
  quantity_at_nil (x ∷ os) h = ground (arith, quantity_at_nil os)

  -- A resting order is in the level at its price.
  pub ids_at-lookup :
      (k : ℕ) (os : Resting) (o : Order)
      → lookup k os ≡ some o
      → is_at s p o.side o.price ≡ true
      → is_empty (ids_at s p os) ≡ false
  unfolding ids_at lookup is_empty
  ids_at-lookup k [] o h e = cc
  ids_at-lookup k (x ∷ os) o h e = ground (arith, ids_at-lookup k os o)

  pub quantity_at-lookup :
      (k : ℕ) (os : Resting) (o : Order)
      → lookup k os ≡ some o
      → is_at s p o.side o.price ≡ true
      → o.quantity ≤ quantity_at s p os
  unfolding quantity_at lookup
  quantity_at-lookup k [] o h e = cc
  quantity_at-lookup k (x ∷ os) o h e = ground (arith, quantity_at-lookup k os o)

pub quantity_at-le-sum : (s : Side) (p : ℤ) (os : Resting) → quantity_at s p os ≤ sum_quantities os
unfolding quantity_at sum_quantities
quantity_at-le-sum s p [] = omega arith
quantity_at-le-sum s p (x ∷ os) = ground (arith, quantity_at-le-sum s p os)

-- One price on one side, as the maps' comparators see it.
pub is_at-same : (c : Comparator ℤ) (s : Side) (k p : ℤ) → is_at s p s k ≡ same c k p
unfolding is_at
is_at-same c buy k p = sym (same-eqb_ℤ c k p)
is_at-same c sell k p = sym (same-eqb_ℤ c k p)

pub is_at_other : (s s' : Side) (k p : ℤ) → same_side s s' ≡ false → is_at s p s' k ≡ false
unfolding is_at
is_at_other s s' k p h = rw h

-- An order is in the level at its own price.
pub here-is_at : (o : Order) → is_at o.side o.price o.side o.price ≡ true
here-is_at o = is_at-same greater o.side o.price o.price ∙ same_refl greater o.price

-- ===== src/OrderBook/Small.antt =====
-- How large the levels of a feed can grow.
use latency_lab.Base.{
  ℕ, ◌+◌, ◌-◌, ◌<◌, ◌≤◌, ◌^◌, ◌≡◌, refl, List, [], ◌∷◌, ◌++◌, Option, none, some, arith,
}
use latency_lab.Message.{MarketMessage, MessageType, add, modify, cancel, trade}
use latency_lab.Level.{Order}
use latency_lab.OrderBook.{order_of}
use latency_lab.OrderBook.Refinement.{IsSmall, StaySmall}
use latency_lab.Resting.{Resting, lookup, remove, set_quantity, apply, apply_to, sum_quantities}
use latency_lab.Resting.AtPrice.{quantity_at-le-sum}

sum-append :
    (os : Resting) (o : Order) → sum_quantities (os ++ o ∷ []) ≡ sum_quantities os + o.quantity
unfolding sum_quantities
sum-append [] o = omega arith
sum-append (x ∷ os) o = omega (arith, sum-append os o)

sum-remove : (k : ℕ) (os : Resting) → sum_quantities (remove k os) ≤ sum_quantities os
unfolding sum_quantities remove
sum-remove k [] = omega arith
sum-remove k (x ∷ os) = ground (arith, sum-remove k os)

sum-set_quantity :
    (k q : ℕ) (os : Resting) → sum_quantities (set_quantity k q os) ≤ sum_quantities os + q
unfolding sum_quantities set_quantity
sum-set_quantity k q [] = omega arith
sum-set_quantity k q (x ∷ os) = ground (arith, sum-set_quantity k q os)

-- Taking from an order does not add to the sum.
sum_less :
    (k q : ℕ) (os : Resting) (o : Order)
    → lookup k os ≡ some o
    → q ≤ o.quantity
    → sum_quantities (set_quantity k q os) ≤ sum_quantities os
unfolding sum_quantities set_quantity lookup
sum_less k q [] o h l = omega arith
sum_less k q (x ∷ os) o h l = ground (arith, sum_less k q os o)

sum-apply_to :
    (t : MessageType) (msg : MarketMessage) (os : Resting) (found : Option Order)
    → lookup msg.order_id os ≡ found
    → sum_quantities (apply_to t msg found os) ≤ sum_quantities os + msg.quantity
unfolding order_of
sum-apply_to add msg os none e = omega (arith, sum-append os (order_of msg))
sum-apply_to modify msg os none e = omega arith
sum-apply_to cancel msg os none e = omega arith
sum-apply_to trade msg os none e = omega arith
sum-apply_to add msg os (some o) e = omega arith
sum-apply_to modify msg os (some o) e = sum-set_quantity msg.order_id msg.quantity os
sum-apply_to cancel msg os (some o) e = omega (arith, sum-remove msg.order_id os)
sum-apply_to trade msg os (some o) e =
    ground
      (arith, sum-remove msg.order_id os, sum_less msg.order_id (o.quantity - msg.quantity) os o e)

-- A message adds its quantity at most.
pub sum-apply :
    (msg : MarketMessage) (os : Resting)
    → sum_quantities (apply msg os) ≤ sum_quantities os + msg.quantity
unfolding apply
sum-apply msg os = sum-apply_to msg.type msg os (lookup msg.order_id os) refl

pub IsSmall-of-sum : (os : Resting) → sum_quantities os < 2 ^ 31 → IsSmall os
IsSmall-of-sum os h s p = omega (arith, quantity_at-le-sum s p os)

abbrev pub message_quantities : List MarketMessage → ℕ
message_quantities [] = 0
message_quantities (msg ∷ msgs) = msg.quantity + message_quantities msgs

-- A feed whose quantities sum up to less than 2 ^ 31 keeps all levels below it.
pub StaySmall-of-sum :
    (os : Resting) (msgs : List MarketMessage)
    → sum_quantities os + message_quantities msgs < 2 ^ 31
    → StaySmall os msgs
StaySmall-of-sum os [] h = IsSmall-of-sum os (omega arith)
StaySmall-of-sum os (msg ∷ msgs) h = (
  IsSmall-of-sum os (omega arith),
  StaySmall-of-sum (apply msg os) msgs (omega (arith, sum-apply msg os)),
)

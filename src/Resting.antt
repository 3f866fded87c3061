-- ===== src/Resting.antt =====
-- What an order book promises: the list of the resting orders in their order of arrival.
pub mod Lookup
pub mod AtPrice
pub mod Change
use latency_lab.Base.{
  ℕ, ◌+◌, ◌-◌, ◌%◌, ◌<◌, ◌≢◌, min, Bool, ◌&&◌, ◌==◌, if◌then◌else◌, List, [], ◌∷◌, ◌++◌, Option,
  none, some, All, ltb, length,
}
use latency_lab.Base.Int.{ℤ, eqb_ℤ, u32_mod}
use latency_lab.Message.{Side, MessageType, add, modify, cancel, trade, MarketMessage, same_side}
use latency_lab.Level.{Order, PriceLevel, is_empty}
use latency_lab.OrderBook.{order_of}

abbrev pub Resting : Type 0
Resting = List Order

unfoldable pub lookup : ℕ → Resting → Option Order
lookup id [] = none
lookup id (o ∷ os) = if o.order_id == id then some o else lookup id os

unfoldable pub remove : ℕ → Resting → Resting
remove id [] = []
remove id (o ∷ os) = if o.order_id == id then os else o ∷ remove id os

unfoldable pub set_quantity : ℕ → ℕ → Resting → Resting
set_quantity id q [] = []
set_quantity id q (o ∷ os) =
    if o.order_id == id then record o { quantity = q } ∷ os else o ∷ set_quantity id q os

-- The message's meaning: a new order joins the end, a modified one keeps its place, a trade takes
-- what there is and removes an order that has nothing left; a message about an unknown order, or a
-- second order under one identifier, does nothing.
abbrev pub apply_to : MessageType → MarketMessage → Option Order → Resting → Resting
apply_to add msg none os = os ++ order_of msg ∷ []
apply_to add msg (some o) os = os
apply_to modify msg none os = os
apply_to modify msg (some o) os = set_quantity msg.order_id msg.quantity os
apply_to cancel msg none os = os
apply_to cancel msg (some o) os = remove msg.order_id os
apply_to trade msg none os = os
apply_to trade msg (some o) os =
    if o.quantity - msg.quantity == 0
    then remove msg.order_id os
    else set_quantity msg.order_id (o.quantity - msg.quantity) os

unfoldable pub apply : MarketMessage → Resting → Resting
apply msg os = apply_to msg.type msg (lookup msg.order_id os) os

unfoldable pub apply_all : List MarketMessage → Resting → Resting
apply_all [] os = os
apply_all (msg ∷ msgs) os = apply_all msgs (apply msg os)

-- The same where at most `limit` orders rest: a new order that finds no place is dropped.
abbrev pub apply_within_to : ℕ → MessageType → MarketMessage → Option Order → Resting → Resting
apply_within_to limit add msg none os =
    if ltb (length os) limit then os ++ order_of msg ∷ [] else os
apply_within_to limit add msg (some o) os = os
apply_within_to limit modify msg found os = apply_to modify msg found os
apply_within_to limit cancel msg found os = apply_to cancel msg found os
apply_within_to limit trade msg found os = apply_to trade msg found os

unfoldable pub apply_within : ℕ → MarketMessage → Resting → Resting
apply_within limit msg os = apply_within_to limit msg.type msg (lookup msg.order_id os) os

unfoldable pub apply_all_within : ℕ → List MarketMessage → Resting → Resting
apply_all_within limit [] os = os
apply_all_within limit (msg ∷ msgs) os = apply_all_within limit msgs (apply_within limit msg os)

-- Does an order of the side `s'` at the price `p'` stand at the price `p` of the side `s`?
unfoldable pub is_at : Side → ℤ → Side → ℤ → Bool
is_at s p s' p' = same_side s s' && eqb_ℤ p' p

-- The identifiers and the open quantity at one price of one side.
unfoldable pub ids_at : Side → ℤ → Resting → List ℕ
ids_at s p [] = []
ids_at s p (o ∷ os) = if is_at s p o.side o.price then o.order_id ∷ ids_at s p os else ids_at s p os

unfoldable pub quantity_at : Side → ℤ → Resting → ℕ
quantity_at s p [] = 0
quantity_at s p (o ∷ os) =
    if is_at s p o.side o.price then o.quantity + quantity_at s p os else quantity_at s p os

-- The open quantity of all orders.
unfoldable pub sum_quantities : Resting → ℕ
sum_quantities [] = 0
sum_quantities (o ∷ os) = o.quantity + sum_quantities os

abbrev pub level_of : ℤ → List ℕ → ℕ → Option PriceLevel
level_of p ids q =
    if is_empty ids
    then none
    else some (record { price = p; order_ids = ids; total_quantity = q % u32_mod })

-- The level that the orders make up at a price: none where there is no order.
abbrev pub level_at : Side → ℤ → Resting → Option PriceLevel
level_at s p os = level_of p (ids_at s p os) (quantity_at s p os)

-- No two orders have one identifier, and each quantity fits its `uint32_t`.
abbrev pub IsDistinct : Resting → Type 0
IsDistinct [] = Unit {0}
IsDistinct (o ∷ os) = All (λ o'. o'.order_id ≢ o.order_id) os × IsDistinct os

abbrev pub Fits : Resting → Type 0
Fits os = All (λ o. o.quantity < u32_mod) os

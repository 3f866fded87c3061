-- ===== src/OrderBook/Refinement.antt =====
-- `on_message` against the list of resting orders: what each message does, and where it is defined.
use latency_lab.Base.{
  ◌+◌, ◌-◌, ◌%◌, ◌<◌, ◌≤◌, ◌^◌, ◌≡◌, refl, sym, subst, none, some, List, [], ◌∷◌, All, arith,
  Option-cases, some_eq, inl, inr,
}
use latency_lab.Base.Int.{ℤ, u32_mod}
use latency_lab.Message.{Side, MarketMessage, MessageType, add, modify, cancel, trade}
use latency_lab.StdMap.{find}
use latency_lab.Level.{Order, is_empty}
use latency_lab.OrderBook.{
  OrderBook, new, dispatch, on_message, process, handle_modify, handle_add, handle_cancel,
  handle_trade, modify_total,
}
use latency_lab.OrderBook.Modify.{modify_total_defined, modify_total_overflow}
use latency_lab.OrderBook.Represents.{Represents}
use latency_lab.OrderBook.Represents.Add.{handle_add-Represents}
use latency_lab.OrderBook.Represents.Cancel.{handle_cancel-Represents}
use latency_lab.OrderBook.Represents.Trade.{handle_trade-Represents}
use latency_lab.OrderBook.Represents.Modify.{
  level_quantity, handle_modify-Represents, handle_modify-some, handle_modify-none,
  handle_modify_missing,
}
use latency_lab.Resting.{
  Resting, lookup, set_quantity, ids_at, apply, apply_to, apply_all, quantity_at,
}
use latency_lab.Resting.AtPrice.{quantity_at-lookup, quantity_at-set_quantity, here-is_at}

-- A message whose quantity is a `uint32_t`.
abbrev pub IsWord : MarketMessage → Type 0
IsWord msg = msg.quantity < u32_mod

-- A new book holds no orders.
pub new-Represents : Represents new []
unfolding new find is_empty ids_at lookup
new-Represents = record {
  bids = record { sorted = tt; levels = λ p. refl };
  asks = record { sorted = tt; levels = λ p. refl };
  order_map = record { sorted = tt; orders = λ id. refl };
  distinct = tt;
  fits = tt;
}

dispatch-Represents :
    (t : MessageType) (b b' : OrderBook) (os : Resting) (msg : MarketMessage)
    → Represents b os
    → IsWord msg
    → dispatch t b msg ≡ some b'
    → Represents b' (apply_to t msg (lookup msg.order_id os) os)
dispatch-Represents add b b' os msg r h e = rw (← some_eq e) (handle_add-Represents b os msg r h)
dispatch-Represents modify b b' os msg r h e = handle_modify-Represents b b' os msg r h e
dispatch-Represents cancel b b' os msg r h e =
    rw (← some_eq e) (handle_cancel-Represents b os msg r)
dispatch-Represents trade b b' os msg r h e = rw (← some_eq e) (handle_trade-Represents b os msg r)

-- If a book represents a list of resting orders and the quantity of a message fits a uint32_t, and
-- on_message is defined on it, the book afterwards represents the list that the abstract meaning of
-- the message makes of that list: levels in price order, the identifiers of a level in order of
-- arrival, each total the sum of its quantities modulo 2^32, no empty level and no stray order.
pub on_message-Represents :
    (b b' : OrderBook) (os : Resting) (msg : MarketMessage)
    → Represents b os
    → IsWord msg
    → on_message b msg ≡ some b'
    → Represents b' (apply msg os)
unfolding on_message apply
on_message-Represents b b' os msg r h e = dispatch-Represents msg.type b b' os msg r h e

-- The open quantity of every level stays below 2 ^ 31.
abbrev pub IsSmall : Resting → Type 0
IsSmall os = (s : Side) (p : ℤ) → quantity_at s p os < 2 ^ 31

modify-defined :
    (b : OrderBook) (os : Resting) (msg : MarketMessage) (o : Order)
    → Represents b os
    → IsWord msg
    → lookup msg.order_id os ≡ some o
    → level_quantity o os < 2 ^ 31
    → level_quantity o (set_quantity msg.order_id msg.quantity os) < 2 ^ 31
    → (b' : OrderBook) × (handle_modify b msg ≡ some b')
modify-defined b os msg o r h found k l =
    let (b', runs, _) = handle_modify-some b os msg o r found _ h total in (b', runs)
  where
    total :
        modify_total (level_quantity o os % u32_mod) msg.quantity o.quantity
        ≡ some (level_quantity o os + msg.quantity - o.quantity)
    total = ground (
      arith,
      here-is_at o,
      quantity_at-set_quantity o.side o.price msg.order_id msg.quantity os o found,
      quantity_at-lookup o.side o.price msg.order_id os o found,
      modify_total_defined (level_quantity o os) msg.quantity o.quantity,
    )

dispatch-defined :
    (t : MessageType) (b : OrderBook) (os : Resting) (msg : MarketMessage)
    → Represents b os
    → IsWord msg
    → IsSmall os
    → IsSmall (apply_to t msg (lookup msg.order_id os) os)
    → (b' : OrderBook) × (dispatch t b msg ≡ some b')
dispatch-defined add b os msg r h k l = (handle_add b msg, refl)
dispatch-defined cancel b os msg r h k l = (handle_cancel b msg, refl)
dispatch-defined trade b os msg r h k l = (handle_trade b msg, refl)
dispatch-defined modify b os msg r h k l = elim (Option-cases (lookup msg.order_id os)) [
  | inl missing ↦ (b, handle_modify_missing b os msg r missing)
  | inr (o, found) ↦ modify-defined b os msg o r h found (k o.side o.price) (
      subst (λ x. quantity_at o.side o.price (apply_to modify msg x os) < 2 ^ 31) found
        (l o.side o.price))
]

-- On a book that represents a list of resting orders, a message with a uint32_t quantity is free of
-- undefined behaviour if the open quantity of every level is below 2^31 in the list before it and
-- in the list after it, and it leaves a book that represents the latter.
pub on_message-defined :
    (b : OrderBook) (os : Resting) (msg : MarketMessage)
    → Represents b os
    → IsWord msg
    → IsSmall os
    → IsSmall (apply msg os)
    → (b' : OrderBook) × (on_message b msg ≡ some b') × Represents b' (apply msg os)
unfolding on_message apply
on_message-defined b os msg r h k l =
    let (b', runs) = dispatch-defined msg.type b os msg r h k l in
    (b', runs, dispatch-Represents msg.type b b' os msg r h runs)

-- Every list of orders on the way of a feed has small levels.
abbrev pub StaySmall : Resting → List MarketMessage → Type 0
StaySmall os [] = IsSmall os
StaySmall os (msg ∷ msgs) = IsSmall os × StaySmall (apply msg os) msgs

StaySmall-start : (os : Resting) (msgs : List MarketMessage) → StaySmall os msgs → IsSmall os
StaySmall-start os [] w = w
StaySmall-start os (msg ∷ msgs) w = w.0

-- From a book that represents a list of resting orders, a feed of messages with uint32_t quantities
-- along which the open quantity of every level stays below 2^31 runs to its end without undefined
-- behaviour, and leaves a book that represents the orders that the messages make.
pub process-defined :
    (b : OrderBook) (os : Resting) (msgs : List MarketMessage)
    → Represents b os
    → All IsWord msgs
    → StaySmall os msgs
    → (b' : OrderBook) × (process b msgs ≡ some b') × Represents b' (apply_all msgs os)
unfolding process apply_all
process-defined b os [] r h w = (b, refl, r)
process-defined b os (msg ∷ msgs) r h w =
    let (b', runs, holds) = on_message-defined b os msg r h.0 w.0 (StaySmall-start _ msgs w.1) in
    let (b'', rest, last) = process-defined b' (apply msg os) msgs holds h.1 w.1 in
    (b'', rw runs rest, last)

-- Whatever a feed leaves, if it is defined, is the book of the orders that the messages make.
pub process-Represents :
    (b b' : OrderBook) (os : Resting) (msgs : List MarketMessage)
    → Represents b os
    → All IsWord msgs
    → process b msgs ≡ some b'
    → Represents b' (apply_all msgs os)
unfolding process apply_all
process-Represents b b' os [] r h e = rw (← some_eq e) r
process-Represents b b' os (msg ∷ msgs) r h e = elim (Option-cases (on_message b msg)) [
  | inl stuck ↦ cc
  | inr (b₁, runs) ↦
      process-Represents b₁ b' (apply msg os) msgs (on_message-Represents b b₁ os msg r h.0 runs)
        h.1 (rw runs at e)
]

-- On a book that represents a list of resting orders, a Modify message that sets a resting order
-- below 2^31 to a uint32_t quantity of 2^31 or more, by less than 2^31 more than it had, is
-- undefined behaviour: the int32_t difference overflows.
pub on_message-overflow :
    (b : OrderBook) (os : Resting) (msg : MarketMessage) (o : Order)
    → Represents b os
    → IsWord msg
    → msg.type ≡ modify
    → lookup msg.order_id os ≡ some o
    → 2 ^ 31 ≤ msg.quantity
    → o.quantity < 2 ^ 31
    → msg.quantity < o.quantity + 2 ^ 31
    → on_message b msg ≡ none
unfolding on_message
on_message-overflow b os msg o r h t found big old near =
    subst (λ x. dispatch x b msg ≡ none) (sym t)
      (handle_modify-none b os msg o r found (
        modify_total_overflow (level_quantity o os % u32_mod) msg.quantity o.quantity big h near
          old))

-- ===== src/OrderBook/Unique.antt =====
-- A list of resting orders determines the book that holds it, down to the last field.
use latency_lab.Base.{◌<◌, ◌≡◌, sym, ◌∙◌, subst, ◌++◌, none, [], ◌∷◌, arith}
use latency_lab.Base.Int.{ℤ, u32_mod}
use latency_lab.StdMap.{Comparator}
use latency_lab.StdMap.Unique.{find-injective}
use latency_lab.Message.{Side, buy, sell, MarketMessage, add, cancel}
use latency_lab.Level.{Order, LevelMap, less, greater, by_id}
use latency_lab.OrderBook.{OrderBook, order_of, handle_add, handle_cancel}
use latency_lab.OrderBook.Represents.{Represents, SideLevels}
use latency_lab.OrderBook.Represents.Add.{handle_add-Represents}
use latency_lab.OrderBook.Represents.Cancel.{handle_cancel-Represents}
use latency_lab.Resting.{Resting, lookup, remove, apply_to}
use latency_lab.Resting.Lookup.{lookup-append}

pub SideLevels-unique :
    (c : Comparator ℤ) (s : Side) (m n : LevelMap) (os : Resting)
    → SideLevels c s m os
    → SideLevels c s n os
    → m ≡ n
SideLevels-unique c s m n os v w =
    find-injective c m n v.sorted w.sorted (λ p. v.levels p ∙ sym (w.levels p))

-- Two books that hold one list of orders are equal.
pub Represents-unique :
    (b b' : OrderBook) (os : Resting) → Represents b os → Represents b' os → b ≡ b'
Represents-unique b b' os r r' =
    let bids = SideLevels-unique greater buy b.bids b'.bids os r.bids r'.bids in
    let asks = SideLevels-unique less sell b.asks b'.asks os r.asks r'.asks in
    let orders =
      find-injective by_id b.order_map b'.order_map r.order_map.sorted r'.order_map.sorted
        (λ id. r.order_map.orders id ∙ sym (r'.order_map.orders id)) in
    λ i. record { bids = bids i; asks = asks i; order_map = orders i }

remove-append :
    (os : Resting) (o : Order) → lookup o.order_id os ≡ none → remove o.order_id (os ++ o ∷ []) ≡ os
unfolding remove lookup
remove-append [] o h = ground arith
remove-append (x ∷ os) o h = ground (arith, remove-append os o)

-- On a book that represents a list of resting orders, adding an order with an unknown identifier
-- and a uint32_t quantity and cancelling that identifier gives back an equal book.
pub handle_cancel-handle_add :
    (b : OrderBook) (os : Resting) (msg msg' : MarketMessage)
    → Represents b os
    → msg.quantity < u32_mod
    → msg'.order_id ≡ msg.order_id
    → lookup msg.order_id os ≡ none
    → handle_cancel (handle_add b msg) msg' ≡ b
unfolding order_of
handle_cancel-handle_add b os msg msg' r h same new =
    Represents-unique (handle_cancel (handle_add b msg) msg') b os
      (subst (Represents (handle_cancel (handle_add b msg) msg')) back (
        handle_cancel-Represents (handle_add b msg) added msg'
          (handle_add-Represents b os msg r h)))
      r
  where
    added : Resting
    added = apply_to add msg (lookup msg.order_id os) os

    back : apply_to cancel msg' (lookup msg'.order_id added) added ≡ os
    back = ground (
      arith,
      same,
      new,
      lookup-append msg.order_id os (order_of msg) new,
      remove-append os (order_of msg) new,
    )

-- ===== src/Worker/Fold.antt =====
-- The messages that a consumer has applied, one after the other.
use latency_lab.Base.{
  ◌≡◌, refl, List, [], ◌∷◌, ◌++◌, Option, none, some, ◌>>=◌, Option-cases, inl, inr,
}
use latency_lab.Message.{MarketMessage}
use latency_lab.OrderBook
use latency_lab.OrderBook.{OrderBook}
use latency_lab.PooledOrderBook
use latency_lab.PooledOrderBook.{PooledOrderBook}

module _ {B : Type 0} (on_message : B → MarketMessage → Option B) where
  unfoldable pub fold : Option B → List MarketMessage → Option B
  fold b [] = b
  fold b (msg ∷ msgs) = fold (b >>= (λ b'. on_message b' msg)) msgs

  pub fold-append :
      (b : Option B) (msgs : List MarketMessage) (msg : MarketMessage)
      → fold b (msgs ++ msg ∷ []) ≡ (fold b msgs >>= (λ b'. on_message b' msg))
  unfolding fold
  fold-append b [] msg = refl
  fold-append b (m ∷ msgs) msg = fold-append (b >>= (λ b'. on_message b' m)) msgs msg

  pub fold-none : (msgs : List MarketMessage) → fold none msgs ≡ none
  unfolding fold
  fold-none [] = refl
  fold-none (m ∷ msgs) = fold-none msgs

pub fold-process :
    (b : OrderBook) (msgs : List MarketMessage)
    → fold OrderBook.on_message (some b) msgs ≡ OrderBook.process b msgs
unfolding fold OrderBook.process
fold-process b [] = refl
fold-process b (msg ∷ msgs) = elim (Option-cases (OrderBook.on_message b msg)) [
  | inl stuck ↦ rw stuck (fold-none OrderBook.on_message msgs)
  | inr (b', runs) ↦ rw runs (fold-process b' msgs)
]

pub fold-pooled_process :
    (b : PooledOrderBook) (msgs : List MarketMessage)
    → fold PooledOrderBook.on_message (some b) msgs ≡ PooledOrderBook.process b msgs
unfolding fold PooledOrderBook.process
fold-pooled_process b [] = refl
fold-pooled_process b (msg ∷ msgs) = elim (Option-cases (PooledOrderBook.on_message b msg)) [
  | inl stuck ↦ rw stuck (fold-none PooledOrderBook.on_message msgs)
  | inr (b', runs) ↦ rw runs (fold-pooled_process b' msgs)
]

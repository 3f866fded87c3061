-- ===== src/Generator/Pooled.antt =====
-- A generated feed on the pooled book: 10000 slots, or as many as messages, are enough.
use latency_lab.Base.{
  ℕ, min, ◌≤◌, ◌≡◌, ◌⊎◌, inl, inr, refl, subst, List, [], ◌∷◌, arith, length, length-append, Option,
  some, none, All,
}
use latency_lab.Message.{MarketMessage, MessageType, add, modify, cancel, trade}
use latency_lab.Level.{Order}
use latency_lab.OrderBook
use latency_lab.OrderBook.{OrderBook, order_of}
use latency_lab.PooledOrderBook.{PooledOrderBook, new, process}
use latency_lab.PooledOrderBook.Represents.{Represents}
use latency_lab.PooledOrderBook.Refinement.{
  StayUnwrapped, pooled_process-Represents, pooled_new-Represents,
}
use latency_lab.PooledOrderBook.Agree.{Agree, Represents-Agree, process-Agree}
use latency_lab.Resting.{
  Resting, lookup, apply, apply_to, apply_all, apply_within, apply_within_to, apply_all_within,
}
use latency_lab.Resting.AtPrice.{quantity_at-le-sum}
use latency_lab.Generator.Ranges.{generated, IsTypical, generated-IsTypical, length-generated}
use latency_lab.Generator.Safe.{
  IsTypicalList, length-IsTypicalList, sum-IsTypicalList, apply-IsTypicalList, typical-IsWord,
  StaySmall-of-typical, generated_feed_defined,
}

module _ (limit : ℕ) (enough : 10000 ≤ limit) where
  apply_within_to-typical :
      (t : MessageType) (msg : MarketMessage) (found : Option Order) (os : Resting)
      → length (apply_to t msg found os) ≤ 10000
      → apply_within_to limit t msg found os ≡ apply_to t msg found os
  apply_within_to-typical add msg none os h =
      ground (arith, h, length-append os (order_of msg ∷ []))
  apply_within_to-typical add msg (some o) os h = refl
  apply_within_to-typical modify msg found os h = refl
  apply_within_to-typical cancel msg found os h = refl
  apply_within_to-typical trade msg found os h = refl

  apply_within-typical :
      (msg : MarketMessage) (os : Resting)
      → IsTypicalList (apply msg os)
      → apply_within limit msg os ≡ apply msg os
  unfolding apply apply_within
  apply_within-typical msg os v =
      apply_within_to-typical msg.type msg (lookup msg.order_id os) os
        (length-IsTypicalList (apply msg os) v)

  apply_all_within-typical :
      (msgs : List MarketMessage) (os : Resting)
      → All IsTypical msgs
      → IsTypicalList os
      → apply_all_within limit msgs os ≡ apply_all msgs os
  unfolding apply_all apply_all_within
  apply_all_within-typical [] os h v = refl
  apply_all_within-typical (msg ∷ msgs) os h v =
      let w = apply-IsTypicalList msg os h.0 v in
      rw (apply_within-typical msg os w) (apply_all_within-typical msgs (apply msg os) h.1 w)

  StayUnwrapped-of-typical :
      (msgs : List MarketMessage) (os : Resting)
      → All IsTypical msgs
      → IsTypicalList os
      → StayUnwrapped limit os msgs
  StayUnwrapped-of-typical [] os h v = tt
  StayUnwrapped-of-typical (msg ∷ msgs) os h v =
      let w = apply-IsTypicalList msg os h.0 v in
      (
        λ s p. omega (arith, quantity_at-le-sum s p os, sum-IsTypicalList os v),
        rw (apply_within-typical msg os w) (StayUnwrapped-of-typical msgs (apply msg os) h.1 w),
      )

min_cases : (a b c : ℕ) → min a b ≤ c → (a ≤ c) ⊎ (b ≤ c)
min_cases a b c h = omega (arith, h)

-- The identifiers of a generated feed are among 10000.
pooled_feed-Agree :
    (clock : ℕ → ℕ) (num_messages : ℕ) (symbol : List ℕ) (max_orders : ℕ)
    → 10000 ≤ max_orders
    → (b : OrderBook) × (b' : PooledOrderBook) × (OrderBook.process OrderBook.new
          (generated clock num_messages symbol)
        ≡ some b)
      × (process (new max_orders) (generated clock num_messages symbol) ≡ some b')
      × Agree b b'
pooled_feed-Agree clock n symbol limit enough =
    let msgs = generated clock n symbol in
    let typical = generated-IsTypical clock n symbol in
    let (b, runs, holds) = generated_feed_defined clock n symbol in
    let (b', runs', holds') =
      pooled_process-Represents limit (new limit) [] msgs (pooled_new-Represents limit)
        (typical-IsWord msgs typical)
        (StayUnwrapped-of-typical limit enough msgs [] typical (tt, tt)) in
    (
      b,
      b',
      runs,
      runs',
      Represents-Agree limit b b' (apply_all msgs []) holds (
          subst (Represents limit b')
            (apply_all_within-typical limit enough msgs [] typical (tt, tt)) holds'),
    )

-- For every number of messages, symbol and clock, the generated feed runs to its end on a new plain
-- book and on a new pooled book with at least 10000 slots, or a slot for each message, and the two agree.
pub generated_feed-Agree :
    (clock : ℕ → ℕ) (num_messages : ℕ) (symbol : List ℕ) (max_orders : ℕ)
    → min 10000 num_messages ≤ max_orders
    → (b : OrderBook) × (b' : PooledOrderBook) × (OrderBook.process OrderBook.new
          (generated clock num_messages symbol)
        ≡ some b)
      × (process (new max_orders) (generated clock num_messages symbol) ≡ some b')
      × Agree b b'
generated_feed-Agree clock n symbol limit enough =
    let msgs = generated clock n symbol in
    let typical = generated-IsTypical clock n symbol in
    elim (min_cases 10000 n limit enough) [
      | inl slots ↦ pooled_feed-Agree clock n symbol limit slots
      | inr slots ↦
          process-Agree limit msgs (omega (arith, length-generated clock n symbol, slots))
            (typical-IsWord msgs typical) (StaySmall-of-typical [] msgs (tt, tt) typical)
    ]

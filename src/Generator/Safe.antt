-- ===== src/Generator/Safe.antt =====
-- A generated feed never brings the books into trouble: at most 10000 identifiers, of at most 10099
-- each, rest at a time.
use latency_lab.Base.{
  ℕ, zero, suc, ◌+◌, ◌-◌, ◌*◌, ◌≤◌, ◌<◌, ◌^◌, ◌≡◌, ◌≢◌, refl, subst, ◌==◌, Bool-cases, List, [],
  ◌∷◌, arith, length, Option, some, none, All, inl, inr,
}
use latency_lab.Message.{MarketMessage, MessageType, add, modify, cancel, trade}
use latency_lab.Level.{Order}
use latency_lab.OrderBook
use latency_lab.OrderBook.{OrderBook, order_of}
use latency_lab.OrderBook.Represents.{Represents}
use latency_lab.OrderBook.Refinement.{IsWord, StaySmall, process-defined, new-Represents}
use latency_lab.OrderBook.Small.{IsSmall-of-sum}
use latency_lab.Resting.{
  Resting, lookup, remove, set_quantity, apply, apply_to, apply_all, sum_quantities, IsDistinct,
}
use latency_lab.Resting.Lookup.{
  All-append, All-remove, IsDistinct-append, IsDistinct-remove, IsDistinct-set_quantity,
}
use latency_lab.Generator.Ranges.{generated, IsTypical, generated-IsTypical}

abbrev pub IsTypicalOrder : Order → Type 0
IsTypicalOrder o = (1000 ≤ o.order_id) × (o.order_id < 11000) × (o.quantity < 10100)

-- Distinct orders, each as a generated message makes it.
abbrev pub IsTypicalList : Resting → Type 0
IsTypicalList os = IsDistinct os × All IsTypicalOrder os

sum_bound : (os : Resting) → All IsTypicalOrder os → sum_quantities os ≤ 10099 * length os
unfolding sum_quantities
sum_bound [] v = omega arith
sum_bound (o ∷ os) v = omega (arith, sum_bound os v.1)

-- An identifier from 1000 on, less than `n` beyond.
abbrev IsWithin : ℕ → Order → Type 0
IsWithin n o = (1000 ≤ o.order_id) × (o.order_id < 1000 + n)

narrowed :
    (n : ℕ) (os : Resting)
    → All (λ o. o.order_id ≢ 1000 + n) os
    → All (IsWithin (suc n)) os
    → All (IsWithin n) os
narrowed n [] a v = tt
narrowed n (o ∷ os) a v = ((v.0.0, ground (arith, a.0, v.0.1)), narrowed n os a.1 v.1)

remove_last :
    (n : ℕ) (os : Resting)
    → IsDistinct os
    → All (IsWithin (suc n)) os
    → All (IsWithin n) (remove (1000 + n) os) × (length os ≤ suc (length (remove (1000 + n) os)))
unfolding remove
remove_last n [] d v = (tt, omega arith)
remove_last n (o ∷ os) d v = elim (Bool-cases (o.order_id == 1000 + n)) [
  | inl last ↦ rw last (
    narrowed n os (subst (λ i. All (λ o'. o'.order_id ≢ i) os) (ground (arith, last)) d.0) v.1,
    omega arith,
  )
  | inr other ↦
      let (rest, count) = remove_last n os d.1 v.1 in
      rw other (((v.0.0, ground (arith, other, v.0.1)), rest), omega (arith, count))
]

-- Distinct identifiers in a range are at most as many as it has.
length-IsDistinct : (n : ℕ) (os : Resting) → IsDistinct os → All (IsWithin n) os → length os ≤ n
length-IsDistinct zero [] d v = omega arith
length-IsDistinct zero (o ∷ os) d v = absurd (omega arith)
length-IsDistinct (suc n) os d v =
    let (rest, count) = remove_last n os d v in
    omega (
      arith,
      count,
      length-IsDistinct n (remove (1000 + n) os) (IsDistinct-remove (1000 + n) os d) rest,
    )

narrow_enough : (os : Resting) → All IsTypicalOrder os → All (IsWithin 10000) os
narrow_enough [] v = tt
narrow_enough (o ∷ os) v = ((v.0.0, omega arith), narrow_enough os v.1)

pub length-IsTypicalList : (os : Resting) → IsTypicalList os → length os ≤ 10000
length-IsTypicalList os v = length-IsDistinct 10000 os v.0 (narrow_enough os v.1)

pub sum-IsTypicalList : (os : Resting) → IsTypicalList os → sum_quantities os < 2 ^ 31
sum-IsTypicalList os v = omega (arith, sum_bound os v.1, length-IsTypicalList os v)

set_quantity-IsTypical :
    (k q : ℕ) (os : Resting)
    → q < 10100
    → All IsTypicalOrder os
    → All IsTypicalOrder (set_quantity k q os)
unfolding set_quantity
set_quantity-IsTypical k q [] h v = tt
set_quantity-IsTypical k q (o ∷ os) h v = ground (arith, set_quantity-IsTypical k q os h v.1)

lookup-IsTypical :
    (k : ℕ) (os : Resting) (o : Order)
    → All IsTypicalOrder os
    → lookup k os ≡ some o
    → o.quantity < 10100
unfolding lookup
lookup-IsTypical k [] o v h = cc
lookup-IsTypical k (x ∷ os) o v h = ground (arith, lookup-IsTypical k os o v.1)

apply_to-IsTypicalList :
    (t : MessageType) (msg : MarketMessage) (os : Resting) (found : Option Order)
    → lookup msg.order_id os ≡ found
    → IsTypical msg
    → IsTypicalList os
    → IsTypicalList (apply_to t msg found os)
unfolding order_of
apply_to-IsTypicalList add msg os none e h v =
    (IsDistinct-append os (order_of msg) v.0 e, All-append IsTypicalOrder os (order_of msg) v.1 h)
apply_to-IsTypicalList modify msg os none e h v = v
apply_to-IsTypicalList cancel msg os none e h v = v
apply_to-IsTypicalList trade msg os none e h v = v
apply_to-IsTypicalList add msg os (some o) e h v = v
apply_to-IsTypicalList modify msg os (some o) e h v = (
  IsDistinct-set_quantity msg.order_id msg.quantity os v.0,
  set_quantity-IsTypical msg.order_id msg.quantity os h.2 v.1,
)
apply_to-IsTypicalList cancel msg os (some o) e h v =
    (IsDistinct-remove msg.order_id os v.0, All-remove IsTypicalOrder msg.order_id os v.1)
apply_to-IsTypicalList trade msg os (some o) e h v =
    elim (Bool-cases (o.quantity - msg.quantity == 0)) [
      | inl filled ↦
          rw filled
            (IsDistinct-remove msg.order_id os v.0, All-remove IsTypicalOrder msg.order_id os v.1)
      | inr rests ↦ rw rests (
        IsDistinct-set_quantity msg.order_id (o.quantity - msg.quantity) os v.0,
        set_quantity-IsTypical msg.order_id (o.quantity - msg.quantity) os
            (omega (arith, lookup-IsTypical msg.order_id os o v.1 e)) v.1,
      )
    ]

pub apply-IsTypicalList :
    (msg : MarketMessage) (os : Resting)
    → IsTypical msg
    → IsTypicalList os
    → IsTypicalList (apply msg os)
unfolding apply
apply-IsTypicalList msg os h v =
    apply_to-IsTypicalList msg.type msg os (lookup msg.order_id os) refl h v

pub StaySmall-of-typical :
    (os : Resting) (msgs : List MarketMessage)
    → IsTypicalList os
    → All IsTypical msgs
    → StaySmall os msgs
StaySmall-of-typical os [] v h = IsSmall-of-sum os (sum-IsTypicalList os v)
StaySmall-of-typical os (msg ∷ msgs) v h = (
  IsSmall-of-sum os (sum-IsTypicalList os v),
  StaySmall-of-typical (apply msg os) msgs (apply-IsTypicalList msg os h.0 v) h.1,
)

pub typical-IsWord : (msgs : List MarketMessage) → All IsTypical msgs → All IsWord msgs
typical-IsWord [] h = tt
typical-IsWord (msg ∷ msgs) h = (omega arith, typical-IsWord msgs h.1)

-- For every number of messages, every symbol and every clock, the generated feed runs to its end on
-- a new order book without undefined behaviour, and the book represents the orders that the
-- messages make.
pub generated_feed_defined :
    (clock : ℕ → ℕ) (num_messages : ℕ) (symbol : List ℕ)
    → (b : OrderBook) × (OrderBook.process OrderBook.new (generated clock num_messages symbol)
        ≡ some b)
      × Represents b (apply_all (generated clock num_messages symbol) [])
generated_feed_defined clock n symbol =
    let typical = generated-IsTypical clock n symbol in
    process-defined OrderBook.new [] (generated clock n symbol) new-Represents
      (typical-IsWord (generated clock n symbol) typical)
      (StaySmall-of-typical [] (generated clock n symbol) (tt, tt) typical)

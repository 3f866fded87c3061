-- ===== src/PooledOrderBook/Exhaustion.antt =====
-- The counter `pool_exhaustions`: which messages it counts.
use latency_lab.Base.{
  ℕ, ◌+◌, ◌%◌, ◌≡◌, refl, sym, ◌∙◌, ap, Bool, false, ltb, not, if◌then◌else◌, length, Option, none,
  some, Option-cases, some_eq, inl, inr, ◌>>=◌, arith,
}
use latency_lab.StdMap.{find, erase}
use latency_lab.Message.{Side, buy, sell, MessageType, add, modify, cancel, trade, MarketMessage}
use latency_lab.Level.{Order, by_id}
use latency_lab.ObjectPool.{u64_mod, allocate, deallocate, load}
use latency_lab.ObjectPool.Slots.{allocate_lem}
use latency_lab.PooledOrderBook.{
  PooledOrderBook, Change, OrderPool, on_side, order_of, modify_level, cancel_level, trade_level,
  add_allocated, handle_add, handle_modify, handle_cancel, handle_trade, dispatch, on_message,
  exhaustions,
}
use latency_lab.PooledOrderBook.Entries.{pointer_cases}
use latency_lab.PooledOrderBook.Represents.{Represents}
use latency_lab.Resting.{Resting, lookup}

-- Does the message add a new order where `limit` orders rest?
abbrev pub drops : ℕ → MessageType → Option Order → Resting → Bool
drops limit add none os = not (ltb (length os) limit)
drops limit add (some o) os = false
drops limit modify found os = false
drops limit cancel found os = false
drops limit trade found os = false

on_side-exhaustions :
    (s : Side) (f : Change) (b : PooledOrderBook)
    → (on_side s f b).pool_exhaustions ≡ b.pool_exhaustions
on_side-exhaustions buy f b = refl
on_side-exhaustions sell f b = refl

-- The counter after `handle_add` has asked for a slot.
allocated-exhaustions :
    (b : PooledOrderBook) (msg : MarketMessage) (slot : Option ℕ) (pool : OrderPool)
    → (add_allocated b msg (slot, pool)).pool_exhaustions
      ≡ elim slot [ none ↦ (b.pool_exhaustions + 1) % u64_mod | some i ↦ b.pool_exhaustions ]
unfolding add_allocated
allocated-exhaustions b msg none pool = refl
allocated-exhaustions b msg (some i) pool = on_side-exhaustions msg.side _ b

-- A handler that reads through a pointer and works on one side leaves the counter.
kept :
    (b b' : PooledOrderBook) (order : Option Order) (f : Order → Change)
    → (order >>= (λ o. some (on_side o.side (f o) b))) ≡ some b'
    → b'.pool_exhaustions ≡ b.pool_exhaustions
kept b b' none f e = cc
kept b b' (some o) f e =
    ap (λ x. x.pool_exhaustions) (sym (some_eq e)) ∙ on_side-exhaustions o.side (f o) b

handle_modify-exhaustions :
    (b b' : PooledOrderBook) (msg : MarketMessage)
    → handle_modify b msg ≡ some b'
    → b'.pool_exhaustions ≡ b.pool_exhaustions
unfolding handle_modify
handle_modify-exhaustions b b' msg e = elim (Option-cases (find by_id msg.order_id b.order_map)) [
  | inl missing ↦ ap (λ x. x.pool_exhaustions) (sym (some_eq (rw (missing, handle_modify) at e)))
  | inr (i, found) ↦
      kept b b' (load b.order_pool i) (λ o. modify_level msg i o b) (rw (found, handle_modify) at e)
]

handle_cancel-exhaustions :
    (b b' : PooledOrderBook) (msg : MarketMessage)
    → handle_cancel b msg ≡ some b'
    → b'.pool_exhaustions ≡ b.pool_exhaustions
unfolding handle_cancel
handle_cancel-exhaustions b b' msg e = elim (Option-cases (find by_id msg.order_id b.order_map)) [
  | inl missing ↦ ap (λ x. x.pool_exhaustions) (sym (some_eq (rw (missing, handle_cancel) at e)))
  | inr (i, found) ↦
      kept b b' (load b.order_pool i)
        (λ o c side_map. (
          cancel_level msg o c side_map,
          erase by_id msg.order_id b.order_map,
          deallocate b.order_pool (some i),
        ))
        (rw (found, handle_cancel) at e)
]

handle_trade-exhaustions :
    (b b' : PooledOrderBook) (msg : MarketMessage)
    → handle_trade b msg ≡ some b'
    → b'.pool_exhaustions ≡ b.pool_exhaustions
unfolding handle_trade
handle_trade-exhaustions b b' msg e = elim (Option-cases (find by_id msg.order_id b.order_map)) [
  | inl missing ↦ ap (λ x. x.pool_exhaustions) (sym (some_eq (rw (missing, handle_trade) at e)))
  | inr (i, found) ↦
      kept b b' (load b.order_pool i) (λ o. trade_level msg i o b) (rw (found, handle_trade) at e)
]

module _ (limit : ℕ) (b : PooledOrderBook) (os : Resting) (msg : MarketMessage)
    (r : Represents limit b os) where
  add-exhaustions : (handle_add b msg).pool_exhaustions ≡ (
      if drops limit add (lookup msg.order_id os) os
      then (b.pool_exhaustions + 1) % u64_mod
      else b.pool_exhaustions)
  unfolding handle_add
  add-exhaustions = elim (pointer_cases b.order_map b.order_pool os r.entries msg.order_id) [
    | inr (i, o, found, there, rests) ↦ rw (found, rests, handle_add) refl
    | inl (missing, new) ↦ rw (missing, new, handle_add) added
  ]
    where
      answer : Option ℕ × OrderPool
      answer = allocate b.order_pool (order_of msg)

      added : (add_allocated b msg answer).pool_exhaustions ≡ (
          if not (ltb (length os) limit)
          then (b.pool_exhaustions + 1) % u64_mod
          else b.pool_exhaustions)
      added =
          allocated-exhaustions b msg answer.0 answer.1
          ∙ elim (allocate_lem b.order_pool (order_of msg) r.pool) [
            | inl (nothing, e) ↦ ground (arith, ap (λ x. x.0) e, nothing, r.room)
            | inr (i, e, _, _, fewer) ↦ ground (arith, e, fewer, r.room)
          ]

  dispatch-exhaustions :
      (t : MessageType) (b' : PooledOrderBook)
      → dispatch t b msg ≡ some b'
      → b'.pool_exhaustions ≡ (
          if drops limit t (lookup msg.order_id os) os
          then (b.pool_exhaustions + 1) % u64_mod
          else b.pool_exhaustions)
  dispatch-exhaustions add b' e = ap (λ x. x.pool_exhaustions) (sym (some_eq e)) ∙ add-exhaustions
  dispatch-exhaustions modify b' e = handle_modify-exhaustions b b' msg e
  dispatch-exhaustions cancel b' e = handle_cancel-exhaustions b b' msg e
  dispatch-exhaustions trade b' e = handle_trade-exhaustions b b' msg e

-- A message that is defined on a pooled book which represents a list of resting orders adds one to
-- pool_exhaustions, modulo 2^64, if it adds an order with an unknown identifier while no fewer
-- orders than the limit rest; any other message leaves the counter as it was.
pub on_message-exhaustions :
    (limit : ℕ) (b b' : PooledOrderBook) (os : Resting) (msg : MarketMessage)
    → Represents limit b os
    → on_message b msg ≡ some b'
    → exhaustions b' ≡ (
        if drops limit msg.type (lookup msg.order_id os) os
        then (exhaustions b + 1) % u64_mod
        else exhaustions b)
unfolding on_message exhaustions
on_message-exhaustions limit b b' os msg r e = dispatch-exhaustions limit b os msg r msg.type b' e

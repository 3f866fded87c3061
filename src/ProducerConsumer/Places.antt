-- ===== src/ProducerConsumer/Places.antt =====
-- Where the threads of apps/benchmark_producer_consumer.cpp stand, and what a call of the queue finds.
use latency_lab.Base.{
  ℕ, ◌≤◌, ◌≡◌, refl, Bool, true, false, inl, inr, ◌⊎◌, List, [], ◌∷◌, ◌++◌, arith, length, map,
}
use latency_lab.Message.{MarketMessage}
use latency_lab.MutexQueue
use latency_lab.MutexQueue.{BoundedMutexQueue, can_push, can_pop, push_with_mutation, pop, close}
use latency_lab.MutexQueue.Cases.{front_cases}
use latency_lab.Worker.{MarketMessageEnvelope, stamp}
use latency_lab.ProducerConsumer.{
  Producer, at_message, at_push, asleep_push, at_notify_empty, at_notify_full, ended, Consumer,
  at_pop, asleep_pop, finished, wake_producer, wake_consumer,
}

-- The message that the producer has taken up.
abbrev pub in_hand : Producer → List MarketMessage
in_hand (at_push item) = item.message ∷ []
in_hand (asleep_push item) = item.message ∷ []
in_hand s = []

abbrev pub has_closed : Producer → Bool
has_closed at_notify_empty = true
has_closed at_notify_full = true
has_closed ended = true
has_closed s = false

-- `close` has notified the consumer.
abbrev pub has_notified : Producer → Bool
has_notified at_notify_full = true
has_notified ended = true
has_notified s = false

abbrev pub is_asleep_push : Producer → Bool
is_asleep_push (asleep_push item) = true
is_asleep_push s = false

abbrev pub is_asleep_pop : Consumer → Bool
is_asleep_pop asleep_pop = true
is_asleep_pop c = false

abbrev pub is_finished : Consumer → Bool
is_finished finished = true
is_finished c = false

pub not_notified : (s : Producer) → has_closed s ≡ false → has_notified s ≡ false
not_notified at_message h = refl
not_notified (at_push item) h = refl
not_notified (asleep_push item) h = refl
not_notified at_notify_empty h = refl
not_notified at_notify_full h = h
not_notified ended h = h

pub empty_hand : (s : Producer) → has_closed s ≡ true → in_hand s ≡ []
empty_hand at_message h = refl
empty_hand (at_push item) h = cc
empty_hand (asleep_push item) h = cc
empty_hand at_notify_empty h = refl
empty_hand at_notify_full h = refl
empty_hand ended h = refl

pub wake_producer_kept :
    (s : Producer)
    → (in_hand (wake_producer s) ≡ in_hand s)
      × (has_closed (wake_producer s) ≡ has_closed s)
      × (has_notified (wake_producer s) ≡ has_notified s)
      × (is_asleep_push (wake_producer s) ≡ false)
wake_producer_kept at_message = (refl, refl, refl, refl)
wake_producer_kept (at_push item) = (refl, refl, refl, refl)
wake_producer_kept (asleep_push item) = (refl, refl, refl, refl)
wake_producer_kept at_notify_empty = (refl, refl, refl, refl)
wake_producer_kept at_notify_full = (refl, refl, refl, refl)
wake_producer_kept ended = (refl, refl, refl, refl)

pub wake_consumer_kept :
    (c : Consumer)
    → (is_finished (wake_consumer c) ≡ is_finished c) × (is_asleep_pop (wake_consumer c) ≡ false)
wake_consumer_kept at_pop = (refl, refl)
wake_consumer_kept asleep_pop = (refl, refl)
wake_consumer_kept finished = (refl, refl)

abbrev pub waiting : List MarketMessageEnvelope → List MarketMessage
waiting items = map (λ e. e.message) items

-- An open queue with room takes the item; any other makes the producer wait.
pub push_cases :
    (q : BoundedMutexQueue MarketMessageEnvelope) (item : MarketMessageEnvelope) (time : ℕ)
    → q.closed ≡ false
    → ((can_push q ≡ false) × (q.capacity ≤ length q.queue))
      ⊎ ((can_push q ≡ true)
          × (push_with_mutation q item (λ e. record e { queue_push_timestamp_ns = stamp time }) ≡ (
            true,
            record q {
              queue = q.queue ++ record item { queue_push_timestamp_ns = stamp time } ∷ [];
            },
          )))
unfolding can_push push_with_mutation
push_cases q item time h = ground (arith, h)

-- A consumer takes the front, finds the queue closed and empty, or has to wait.
pub pop_cases :
    (q : BoundedMutexQueue MarketMessageEnvelope) (item : MarketMessageEnvelope)
    → ((can_pop q ≡ false) × (q.queue ≡ []) × (q.closed ≡ false))
      ⊎ (((can_pop q ≡ true) × (q.queue ≡ []) × (q.closed ≡ true) × (pop q item ≡ (false, item, q)))
          ⊎ ((x : MarketMessageEnvelope) × (rest : List MarketMessageEnvelope) × (can_pop q ≡ true)
              × (q.queue ≡ x ∷ rest)
              × (pop q item ≡ (true, x, record q { queue = rest }))))
unfolding can_pop pop MutexQueue.is_empty
pop_cases q item = elim (front_cases q.queue) [
  | inl nothing ↦ ground (arith, nothing)
  | inr (x, rest, e) ↦ inr (inr (x, rest, ground (arith, e), e, ground (arith, e)))
]

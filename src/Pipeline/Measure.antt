-- ===== src/Pipeline/Measure.antt =====
-- What is left to do of the programs over the ring: it tells threads that wait from threads that are stuck.
use latency_lab.Base.{
  ℕ, suc, ◌+◌, ◌*◌, ◌<◌, ◌≤◌, ◌≡◌, refl, sym, subst, Bool, true, false, ◌==◌, if◌then◌else◌, inl,
  inr, ◌⊎◌, List, [], ◌∷◌, arith, length, length-append,
}
use latency_lab.SpscRingBuffer.{Ring, push, pop, capacity}
use latency_lab.SpscRingBuffer.Window.{IsValid, contents}
use latency_lab.SpscRingBuffer.Queue.{enqueue, dequeue, push_refines, pop_refines}
use latency_lab.Worker.{MarketMessageEnvelope}
use latency_lab.Pipeline.{
  Producer, at_message, at_push, ended, Consumer, at_done, at_empty, at_pop, finished, Pipeline,
}

module _ {T : Type 0} (blank : T) (r : Ring T) (v : IsValid r) where
  -- A push fails at a full ring only.
  pub push_lengths :
      (x : T)
      → (((push r x).0 ≡ false) × (capacity r ≤ length (contents blank r)))
        ⊎ (((push r x).0 ≡ true)
            × (length (contents blank (push r x).1) ≡ suc (length (contents blank r))))
  unfolding enqueue
  push_lengths x =
      ground (arith, push_refines blank r x v, length-append (contents blank r) (x ∷ []))

  -- A pop fails at an empty ring only.
  pub pop_lengths :
      (item : T)
      → (((pop r item).0 ≡ false) × (length (contents blank r) ≡ 0))
        ⊎ (((pop r item).0 ≡ true)
            × (length (contents blank r) ≡ suc (length (contents blank (pop r item).2))))
  unfolding dequeue
  pop_lengths item =
      subst
        (λ d.
          ((d.0 ≡ false) × (length (contents blank r) ≡ 0))
          ⊎ ((d.0 ≡ true) × (length (contents blank r) ≡ suc (length d.2))))
        (sym (pop_refines blank r item v)) (lengths (contents blank r))
    where
      lengths :
          (q : List T)
          → (((dequeue q item).0 ≡ false) × (length q ≡ 0))
            ⊎ (((dequeue q item).0 ≡ true) × (length q ≡ suc (length (dequeue q item).2)))
      lengths [] = inl (refl, refl)
      lengths (y ∷ q) = inr (refl, refl)

abbrev pub is_ended : Producer → Bool
is_ended ended = true
is_ended s = false

abbrev pub is_pushing : Producer → Bool
is_pushing (at_push t) = true
is_pushing s = false

-- The consumer has read `producer_done` as true, and not been back since.
abbrev pub knows_done : Consumer → Bool
knows_done at_empty = true
knows_done finished = true
knows_done c = false

-- What is left to do, for `n` items in the ring.
abbrev pub producer_weight : Producer → ℕ
producer_weight at_message = 3
producer_weight (at_push t) = 1
producer_weight ended = 0

abbrev pub consumer_weight : Consumer → ℕ → ℕ
consumer_weight at_done n = 2
consumer_weight at_empty n = 1
consumer_weight at_pop n = if n == 0 then 3 else 0
consumer_weight finished n = 0

pub at_pop_weight : (n : ℕ) → 0 < n → consumer_weight at_pop n ≡ 0
at_pop_weight n h = ground (arith, h)

pub at_pop_weight_le : (n : ℕ) → consumer_weight at_pop n ≤ 3
at_pop_weight_le n = ground arith

-- More in the ring is no more to do for the consumer.
pub consumer_weight-suc : (c : Consumer) (n : ℕ) → consumer_weight c (suc n) ≤ consumer_weight c n
consumer_weight-suc at_done n = omega arith
consumer_weight-suc at_empty n = omega arith
consumer_weight-suc at_pop n = ground arith
consumer_weight-suc finished n = omega arith

module _ {B : Type 0} (blank : MarketMessageEnvelope) where
  abbrev pub waiting : Pipeline B → ℕ
  waiting p = length (contents blank p.queue)

  abbrev pub measure : Pipeline B → ℕ
  measure p =
      7 * length p.to_send
      + 4 * waiting p
      + producer_weight p.producer
      + consumer_weight p.consumer (waiting p)

  pub record IsLive (p : Pipeline B) : Type 0 where
    pub valid : IsValid p.queue
    pub room : 0 < capacity p.queue
    pub sending : (is_pushing p.producer ≡ false) ⊎ (0 < length p.to_send)
    pub done : p.producer_done ≡ is_ended p.producer
    pub sent : (is_ended p.producer ≡ false) ⊎ (p.to_send ≡ [])
    pub known : (knows_done p.consumer ≡ false) ⊎ (is_ended p.producer ≡ true)

  -- A step of the producer: it is at its end and does nothing; or it comes two closer to the end; or the
  -- ring holds something, and it has come no further from the end.
  abbrev pub Produced : Pipeline B → Pipeline B → Type 0
  Produced p p' =
      ((is_ended p.producer ≡ true) × (p' ≡ p))
      ⊎ ((measure p' + 2 ≤ measure p)
          ⊎ ((measure p' ≤ measure p) × (0 < waiting p') × (is_ended p'.producer ≡ false)))

  -- A step of the consumer: it is at its end and does nothing; or it comes closer to the end; or the ring
  -- is empty and the producer not done, and it has come at most one further from the end.
  abbrev pub Consumed : Pipeline B → Pipeline B → Type 0
  Consumed p p' =
      ((p.consumer ≡ finished) × (p' ≡ p))
      ⊎ ((measure p' < measure p)
          ⊎ ((measure p' ≤ measure p + 1) × (waiting p ≡ 0) × (p.producer_done ≡ false)))

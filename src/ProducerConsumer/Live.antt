-- ===== src/ProducerConsumer/Live.antt =====
-- The program never comes to a point at which both threads wait, and threads that take turns come to
-- their ends.
use latency_lab.Base.{
  ℕ, ◌+◌, ◌*◌, ◌<◌, ◌≤◌, ◌≡◌, refl, sym, ◌∙◌, ap, subst, true, inl, inr, ◌⊎◌, List, [], ◌∷◌, arith,
  length, length-append, Option,
}
use latency_lab.Base.Int.{ℤ}
use latency_lab.Message.{MarketMessage}
use latency_lab.MutexQueue
use latency_lab.MutexQueue.{close}
use latency_lab.Worker.{MarketMessageEnvelope, stamp, Readings}
use latency_lab.ProducerConsumer.{
  Producer, at_message, at_push, asleep_push, at_notify_empty, at_notify_full, ended, Consumer,
  at_pop, asleep_pop, finished, Program, Event, producer, consumer, wake_producer, wake_consumer,
  produce, consume, step, run, initial,
}
use latency_lab.ProducerConsumer.Places.{
  is_asleep_push, is_asleep_pop, has_closed, push_cases, pop_cases,
}
use latency_lab.ProducerConsumer.Sound.{
  IsSound, step-IsSound, run-IsSound, at_start, initial-IsSound, run_complete,
}
use latency_lab.Worker.Latencies.{HasWorked}

-- The producer, and the consumer, cannot go on by itself: it sleeps, or is at its end.
abbrev pub ProducerStands : Producer → Type 0
ProducerStands s = (is_asleep_push s ≡ true) ⊎ (s ≡ ended)

abbrev pub ConsumerStands : Consumer → Type 0
ConsumerStands c = (is_asleep_pop c ≡ true) ⊎ (c ≡ finished)

-- Both threads are at their ends.
abbrev pub BothEnded : {B : Type 0} → Program B → Type 0
BothEnded p = (p.producer ≡ ended) × (p.consumer ≡ finished)

-- What is left to do.
abbrev producer_weight : Producer → ℕ
producer_weight at_message = 4
producer_weight (at_push item) = 8
producer_weight (asleep_push item) = 7
producer_weight at_notify_empty = 3
producer_weight at_notify_full = 1
producer_weight ended = 0

abbrev consumer_weight : Consumer → ℕ
consumer_weight at_pop = 1
consumer_weight asleep_pop = 0
consumer_weight finished = 0

wake_producer_weight : (s : Producer) → producer_weight (wake_producer s) ≤ producer_weight s + 1
wake_producer_weight at_message = omega arith
wake_producer_weight (at_push item) = omega arith
wake_producer_weight (asleep_push item) = omega arith
wake_producer_weight at_notify_empty = omega arith
wake_producer_weight at_notify_full = omega arith
wake_producer_weight ended = omega arith

wake_consumer_weight : (c : Consumer) → consumer_weight (wake_consumer c) ≤ consumer_weight c + 1
wake_consumer_weight at_pop = omega arith
wake_consumer_weight asleep_pop = omega arith
wake_consumer_weight finished = omega arith

-- A step of the producer, then one of the consumer.
abbrev pub turns : List (ℕ × ℤ × Readings) → List Event
turns [] = []
turns ((time, cpu, readings) ∷ rs) = producer time cpu ∷ consumer readings ∷ turns rs

module _ {B : Type 0} (on_message : B → MarketMessage → Option B) (messages : List MarketMessage)
    (start : B) (capacity : ℕ) where
  abbrev measure : Program B → ℕ
  measure p =
      5 * length p.to_send
      + 2 * length p.queue.queue
      + producer_weight p.producer
      + consumer_weight p.consumer

  -- A step of the producer comes closer to the end, unless it changes nothing.
  produce-measure :
      (s : Producer) (todo : List MarketMessage) (time : ℕ) (cpu : ℤ) (p : Program B)
      → p.producer ≡ s
      → p.to_send ≡ todo
      → IsSound on_message messages start capacity p
      → (ProducerStands p.producer × (produce s todo time cpu p ≡ p))
        ⊎ (measure (produce s todo time cpu p) < measure p)
  unfolding produce close
  produce-measure at_message [] time cpu p e t v = inr (ground (arith, e, t))
  produce-measure at_message (message ∷ rest) time cpu p e t v = inr (ground (arith, e, t))
  produce-measure (at_push item) todo time cpu p e t v =
      elim (push_cases p.queue item time (v.closed ∙ ap has_closed e)) [
        | inl (no_room, full) ↦ inr (rw (no_room, produce) (ground (arith, e)))
        | inr (has_room, joined) ↦
            let item' : MarketMessageEnvelope = record item {
              queue_push_timestamp_ns = stamp time;
            } in
            inr (
              rw (has_room, joined, produce)
                (omega (
                  arith,
                  ap producer_weight e,
                  wake_consumer_weight p.consumer,
                  length-append p.queue.queue (item' ∷ []),
                )))
      ]
  produce-measure (asleep_push item) todo time cpu p e t v = inl (inl (ap is_asleep_push e), refl)
  produce-measure at_notify_empty todo time cpu p e t v =
      inr (omega (arith, ap producer_weight e, wake_consumer_weight p.consumer))
  produce-measure at_notify_full todo time cpu p e t v = inr (omega (arith, ap producer_weight e))
  produce-measure ended todo time cpu p e t v = inl (inr e, refl)

  consume-measure :
      (c : Consumer) (readings : Readings) (p : Program B)
      → p.consumer ≡ c
      → (ConsumerStands p.consumer × (consume on_message c readings p ≡ p))
        ⊎ (measure (consume on_message c readings p) < measure p)
  unfolding consume
  consume-measure at_pop readings p e = elim (pop_cases p.queue p.envelope) [
    | inl (wait, nothing, still_open) ↦
        inr (rw (wait, consume) (omega (arith, ap consumer_weight e)))
    | inr (inl (ready, nothing, shut, r)) ↦
        inr (rw (ready, r, consume) (omega (arith, ap consumer_weight e)))
    | inr (inr (x, rest, ready, front, r)) ↦
        inr
          (rw (ready, r, consume) (omega (arith, ap length front, wake_producer_weight p.producer)))
  ]
  consume-measure asleep_pop readings p e = inl (inl (ap is_asleep_pop e), refl)
  consume-measure finished readings p e = inl (inr e, refl)

  -- Where neither thread can go on both are at their ends.
  not_stuck :
      (p : Program B)
      → 0 < capacity
      → IsSound on_message messages start capacity p
      → ProducerStands p.producer
      → ConsumerStands p.consumer
      → (p.producer ≡ ended) × (p.consumer ≡ finished)
  not_stuck p h v (inl asleep) (inl hungry) =
      let nothing : p.queue.queue ≡ [] = ground (arith, v.hungry, hungry) in
      absurd (ground (arith, v.full, asleep, h, ap length nothing))
  not_stuck p h v (inl asleep) (inr over) =
      let nothing : p.queue.queue ≡ [] = ground (arith, v.over, over) in
      absurd (ground (arith, v.full, asleep, h, ap length nothing))
  not_stuck p h v (inr e) (inl hungry) = absurd (ground (arith, v.hungry, hungry, e))
  not_stuck p h v (inr e) (inr over) = (e, over)

  step_producer :
      (p : Program B) (time : ℕ) (cpu : ℤ)
      → IsSound on_message messages start capacity p
      → (ProducerStands p.producer × (step on_message p (producer time cpu) ≡ p))
        ⊎ (measure (step on_message p (producer time cpu)) < measure p)
  unfolding step
  step_producer p time cpu v = produce-measure p.producer p.to_send time cpu p refl refl v

  step_consumer :
      (p : Program B) (readings : Readings)
      → (ConsumerStands p.consumer × (step on_message p (consumer readings) ≡ p))
        ⊎ (measure (step on_message p (consumer readings)) < measure p)
  unfolding step
  step_consumer p readings = consume-measure p.consumer readings p refl

  at_zero :
      (s : Producer) (c : Consumer)
      → producer_weight s + consumer_weight c ≡ 0
      → ProducerStands s × ConsumerStands c
  at_zero ended at_pop h = absurd (omega (arith, h))
  at_zero ended asleep_pop h = (inr refl, inl refl)
  at_zero ended finished h = (inr refl, inr refl)
  at_zero at_message c h = absurd (omega (arith, h))
  at_zero (at_push item) c h = absurd (omega (arith, h))
  at_zero (asleep_push item) c h = absurd (omega (arith, h))
  at_zero at_notify_empty c h = absurd (omega (arith, h))
  at_zero at_notify_full c h = absurd (omega (arith, h))

  stay_ended :
      (p : Program B) (rs : List (ℕ × ℤ × Readings)) → BothEnded p → run on_message p (turns rs) ≡ p
  unfolding run step produce consume
  stay_ended p [] h = refl
  stay_ended p ((time, cpu, readings) ∷ rs) h =
      rw (h.0, h.1, run, step, produce, consume)
        (stay_ended (record p { producer = ended; consumer = finished }) rs (refl, refl))

  turns_end :
      (p : Program B) (rs : List (ℕ × ℤ × Readings))
      → 0 < capacity
      → IsSound on_message messages start capacity p
      → measure p ≤ length rs
      → BothEnded (run on_message p (turns rs))
  unfolding run
  turns_end p [] h v enough =
      let (s, c) = at_zero p.producer p.consumer (omega (arith, enough)) in not_stuck p h v s c
  turns_end p ((time, cpu, readings) ∷ rs) h v enough =
      let p' = step on_message p (producer time cpu) in
      let p'' = step on_message p' (consumer readings) in
      let v' = step-IsSound on_message messages start capacity p (producer time cpu) v in
      let v'' = step-IsSound on_message messages start capacity p' (consumer readings) v' in
      elim (step_producer p time cpu v) [
        | inl (s, same) ↦ elim (step_consumer p' readings) [
          | inl (c, same') ↦
              let both =
                not_stuck p' h v' (subst (λ q. ProducerStands q.producer) (sym same) s) c in
              let both' : BothEnded p'' = subst BothEnded (sym same') both in
              subst BothEnded (sym (stay_ended p'' rs both')) both'
          | inr closer ↦ turns_end p'' rs h v'' (omega (arith, closer, ap measure same, enough))
        ]
        | inr closer ↦ elim (step_consumer p' readings) [
          | inl (c, same') ↦
              turns_end p'' rs h v'' (omega (arith, closer, ap measure same', enough))
          | inr closer' ↦ turns_end p'' rs h v'' (omega (arith, closer, closer', enough))
        ]
      ]

  module _ (blank : MarketMessageEnvelope) (producer_cpu consumer_cpu : ℤ) where
    abbrev pub after : List Event → Program B
    after es =
        run on_message (at_start on_message messages start capacity blank producer_cpu consumer_cpu)
          es

    -- After any schedule, spurious wake-ups included, on a queue with room for an item: where the
    -- producer sleeps or is at its end, and the consumer sleeps or is at its end, both are at their
    -- ends. So the threads never wait for each other for ever.
    pub after_not_stuck :
        (es : List Event)
        → 0 < capacity
        → ProducerStands (after es).producer
        → ConsumerStands (after es).consumer
        → BothEnded (after es)
    after_not_stuck es h s c =
        not_stuck (after es) h
          (run-IsSound on_message messages start capacity _ es
            (initial-IsSound on_message messages start capacity blank producer_cpu consumer_cpu))
          s c

    -- On a queue with room for an item, threads that take turns come to their ends within five
    -- rounds for each message and five more, whatever they read of the clock and of the CPUs, and
    -- the consumer has then worked through all messages, in order.
    pub turns_finish :
        (rs : List (ℕ × ℤ × Readings))
        → 0 < capacity
        → 5 * length messages + 5 ≤ length rs
        → BothEnded (after (turns rs))
          × HasWorked on_message start messages (after (turns rs)).worker
    unfolding initial MutexQueue.new run
    turns_finish rs h enough =
        let v =
          initial-IsSound on_message messages start capacity blank producer_cpu consumer_cpu in
        let both = turns_end (after []) rs h v (omega (arith, enough)) in
        (
          both,
          (run_complete on_message messages start capacity blank producer_cpu consumer_cpu
              (turns rs) both.1).0,
        )

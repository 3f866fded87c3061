-- ===== src/Pipeline/Turns.antt =====
-- Threads that take turns come to their ends, though they spin at a full and at an empty ring.
use latency_lab.Base.{
  ℕ, ◌+◌, ◌*◌, ◌<◌, ◌≤◌, ◌≡◌, refl, ◌∙◌, ap, true, inl, inr, ◌⊎◌, List, [], ◌∷◌, arith, length,
  Option,
}
use latency_lab.Base.Int.{ℤ}
use latency_lab.Message.{MarketMessage}
use latency_lab.SpscRingBuffer.{size_mod, new}
use latency_lab.SpscRingBuffer.Queue.{new-IsValid}
use latency_lab.Worker.{MarketMessageEnvelope, Readings}
use latency_lab.Worker.Latencies.{HasWorked}
use latency_lab.Pipeline.{
  Producer, at_message, at_push, ended, Consumer, at_done, at_empty, at_pop, finished, Pipeline,
  Event, producer, consumer, produce, consume, step, run, initial,
}
use latency_lab.Pipeline.Complete.{after, after_complete}
use latency_lab.Pipeline.Measure.{is_ended, consumer_weight, waiting, measure, IsLive}
use latency_lab.Pipeline.Live.{produce-Produced, consume-Consumed}

module _ {B : Type 0} (on_message : B → MarketMessage → Option B)
    (blank : MarketMessageEnvelope) where
  -- A step of the producer, then one of the consumer, comes closer to the end, or both are there.
  turn_closer :
      (p : Pipeline B) (time : ℕ) (cpu : ℤ) (readings : Readings)
      → IsLive blank p
      → let p' = step on_message p (producer time cpu) in
        let p'' = step on_message p' (consumer readings) in
        IsLive blank p''
        × (((p''.consumer ≡ finished) × (measure blank p'' ≤ measure blank p))
            ⊎ (measure blank p'' < measure blank p))
  unfolding step
  turn_closer p time cpu readings v =
      let p' = step on_message p (producer time cpu) in
      let (v', first) = produce-Produced blank p.producer p.to_send time cpu p refl refl v in
      let (v'', second) = consume-Consumed on_message blank p'.consumer readings p' refl v' in
      (
        v'',
        elim first [
          | inl (at_end, same) ↦ elim second [
            | inl (over, same') ↦ inl (
              ap (λ q. q.consumer) same' ∙ over,
              omega (arith, ap (measure blank) same, ap (measure blank) same'),
            )
            | inr (inl closer) ↦ inr (omega (arith, closer, ap (measure blank) same))
            | inr (inr (_, _, not_yet)) ↦
                absurd
                  (ground (arith, not_yet, v'.done, at_end, ap (λ q. is_ended q.producer) same))
          ]
          | inr (inl two) ↦ elim second [
            | inl (over, same') ↦ inr (omega (arith, two, ap (measure blank) same'))
            | inr (inl closer) ↦ inr (omega (arith, two, closer))
            | inr (inr (one, _, _)) ↦ inr (omega (arith, two, one))
          ]
          | inr (inr (no_further, holds, going)) ↦ elim second [
            | inl (over, same') ↦ absurd (ground (arith, v'.known, over, going))
            | inr (inl closer) ↦ inr (omega (arith, no_further, closer))
            | inr (inr (_, nothing, _)) ↦ absurd (omega (arith, holds, nothing))
          ]
        ],
      )

-- Both threads are at their ends.
abbrev pub BothEnded : {B : Type 0} → Pipeline B → Type 0
BothEnded p = (p.producer ≡ ended) × (p.consumer ≡ finished)

-- A step of the producer, then one of the consumer.
abbrev pub spin_turns : List (ℕ × ℤ × Readings) → List Event
spin_turns [] = []
spin_turns ((time, cpu, readings) ∷ rs) = producer time cpu ∷ consumer readings ∷ spin_turns rs

module _ {B : Type 0} (on_message : B → MarketMessage → Option B)
    (blank : MarketMessageEnvelope) where
  produce_consumer :
      (s : Producer) (todo : List MarketMessage) (time : ℕ) (cpu : ℤ) (p : Pipeline B)
      → (produce s todo time cpu p).consumer ≡ p.consumer
  unfolding produce
  produce_consumer at_message [] time cpu p = refl
  produce_consumer at_message (m ∷ rest) time cpu p = refl
  produce_consumer (at_push t) [] time cpu p = refl
  produce_consumer (at_push t) (m ∷ rest) time cpu p = ground arith
  produce_consumer ended todo time cpu p = refl

  finished_stays :
      (p : Pipeline B) (rs : List (ℕ × ℤ × Readings))
      → p.consumer ≡ finished
      → (run on_message p (spin_turns rs)).consumer ≡ finished
  unfolding run step consume produce
  finished_stays p [] h = h
  finished_stays p ((time, cpu, readings) ∷ rs) h =
      let p' = step on_message p (producer time cpu) in
      let still : p'.consumer ≡ finished = produce_consumer p.producer p.to_send time cpu p ∙ h in
      finished_stays (step on_message p' (consumer readings)) rs (rw (still, consume) still)

  at_zero : (c : Consumer) (n : ℕ) → 4 * n + consumer_weight c n ≡ 0 → c ≡ finished
  at_zero at_done n h = absurd (omega (arith, h))
  at_zero at_empty n h = absurd (omega (arith, h))
  at_zero at_pop n h = absurd (ground (arith, h))
  at_zero finished n h = refl

  turns-IsLive :
      (p : Pipeline B) (rs : List (ℕ × ℤ × Readings))
      → IsLive blank p
      → IsLive blank (run on_message p (spin_turns rs))
  unfolding run
  turns-IsLive p [] v = v
  turns-IsLive p ((time, cpu, readings) ∷ rs) v =
      turns-IsLive (step on_message (step on_message p (producer time cpu)) (consumer readings)) rs
        (turn_closer on_message blank p time cpu readings v).0

  is_ended-ended : (s : Producer) → is_ended s ≡ true → s ≡ ended
  is_ended-ended at_message h = absurd (ground (arith, h))
  is_ended-ended (at_push t) h = absurd (ground (arith, h))
  is_ended-ended ended h = refl

  both_ended : (p : Pipeline B) → IsLive blank p → p.consumer ≡ finished → BothEnded p
  both_ended p v over = (is_ended-ended p.producer (ground (arith, v.known, over)), over)

  spin_turns_end :
      (p : Pipeline B) (rs : List (ℕ × ℤ × Readings))
      → IsLive blank p
      → measure blank p ≤ length rs
      → (run on_message p (spin_turns rs)).consumer ≡ finished
  unfolding run
  spin_turns_end p [] v enough = at_zero p.consumer (waiting blank p) (omega (arith, enough))
  spin_turns_end p ((time, cpu, readings) ∷ rs) v enough =
      let p' = step on_message p (producer time cpu) in
      let p'' = step on_message p' (consumer readings) in
      let (v'', further) = turn_closer on_message blank p time cpu readings v in
      elim further [
        | inl (over, _) ↦ finished_stays p'' rs over
        | inr closer ↦ spin_turns_end p'' rs v'' (omega (arith, closer, enough))
      ]

  -- On a new ring with room for an item, whose number of slots does not wrap, and with either book:
  -- threads that take turns come to their ends within seven rounds for each message and five more,
  -- though they spin while the ring is full or empty; the consumer has worked through all messages,
  -- in order.
  pub spin_turns_finish :
      (messages : List MarketMessage) (start : B) (limit : ℕ) (producer_cpu consumer_cpu : ℤ)
      (rs : List (ℕ × ℤ × Readings))
      → 0 < limit
      → limit + 1 < size_mod
      → 7 * length messages + 5 ≤ length rs
      → let p =
          after on_message blank messages start limit producer_cpu consumer_cpu (spin_turns rs) in
        BothEnded p × HasWorked on_message start messages p.worker
  unfolding initial
  spin_turns_finish messages start limit producer_cpu consumer_cpu rs room fits enough =
      let p = initial (new limit blank) blank messages start producer_cpu consumer_cpu in
      let (valid, nothing, size) = new-IsValid limit blank fits in
      let v : IsLive blank p = record {
        valid = valid;
        room = omega (arith, room, size);
        sending = inl refl;
        done = refl;
        sent = inl refl;
        known = inl refl;
      } in
      let over = spin_turns_end p rs v (omega (arith, enough, ap length nothing)) in
      (
        both_ended (run on_message p (spin_turns rs)) (turns-IsLive p rs v) over,
        (after_complete on_message blank messages start limit producer_cpu consumer_cpu
            (spin_turns rs) fits over).0,
      )

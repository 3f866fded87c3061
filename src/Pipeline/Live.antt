-- ===== src/Pipeline/Live.antt =====
-- Each step of a thread of the programs over the ring comes closer to the end, or waits for the other thread.
use latency_lab.Base.{
  ℕ, ◌<◌, ◌≡◌, refl, sym, ◌∙◌, ap, true, false, Bool-cases, inl, inr, ◌⊎◌, List, [], ◌∷◌, arith,
  length, Option,
}
use latency_lab.Base.Int.{ℤ}
use latency_lab.Message.{MarketMessage}
use latency_lab.SpscRingBuffer.{is_empty}
use latency_lab.SpscRingBuffer.Window.{contents}
use latency_lab.SpscRingBuffer.Queue.{push-IsValid, pop-IsValid, is_empty-contents}
use latency_lab.SpscRingBuffer.Calls.{capacity-push, capacity-pop}
use latency_lab.Worker.{MarketMessageEnvelope, stamp, Readings}
use latency_lab.Pipeline.{
  Producer, at_message, at_push, ended, Consumer, at_done, at_empty, at_pop, finished, Pipeline,
  produce, consume,
}
use latency_lab.Pipeline.Measure.{
  push_lengths, pop_lengths, is_ended, knows_done, producer_weight, consumer_weight, at_pop_weight,
  at_pop_weight_le, consumer_weight-suc, waiting, IsLive, Produced, Consumed,
}

empty_or_longer : {T : Type 0} → (xs : List T) → (xs ≡ []) ⊎ (0 < length xs)
empty_or_longer [] = inl refl
empty_or_longer (x ∷ xs) = inr (omega arith)

module _ {B : Type 0} (blank : MarketMessageEnvelope) where
  pub produce-Produced :
      (s : Producer) (todo : List MarketMessage) (time : ℕ) (cpu : ℤ) (p : Pipeline B)
      → p.producer ≡ s
      → p.to_send ≡ todo
      → IsLive blank p
      → IsLive blank (produce s todo time cpu p) × Produced blank p (produce s todo time cpu p)
  unfolding produce
  produce-Produced at_message [] time cpu p e t v = (
    record {
      valid = v.valid;
      room = v.room;
      sending = inl refl;
      done = refl;
      sent = inr t;
      known = inr refl;
    },
    inr (inl (omega (arith, ap producer_weight e))),
  )
  produce-Produced at_message (m ∷ rest) time cpu p e t v = (
    record {
      valid = v.valid;
      room = v.room;
      sending = inr (omega (arith, ap length t));
      done = v.done ∙ ap is_ended e;
      sent = inl refl;
      known = ground (arith, v.known, e);
    },
    inr (inl (omega (arith, ap producer_weight e))),
  )
  produce-Produced (at_push time₀) [] time cpu p e t v = absurd (ground (arith, v.sending, e, t))
  produce-Produced (at_push time₀) (m ∷ rest) time cpu p e t v =
      elim (push_lengths blank p.queue v.valid envelope) [
        | inl (full, holds) ↦
            rw (full, produce)
              (
                record {
                  valid = v.valid;
                  room = v.room;
                  sending = v.sending;
                  done = v.done;
                  sent = v.sent;
                  known = v.known;
                },
                inr (inr (omega arith, omega (arith, holds, v.room), ap is_ended e)),
              )
        | inr (went, longer) ↦
            rw (went, produce)
              (
                record {
                  valid = push-IsValid p.queue envelope v.valid;
                  room = omega (arith, v.room, capacity-push p.queue envelope);
                  sending = inl refl;
                  done = v.done ∙ ap is_ended e;
                  sent = inl refl;
                  known = ground (arith, v.known, e);
                },
                inr (
                    inr (
                      omega (
                        arith,
                        ap producer_weight e,
                        ap length t,
                        longer,
                        consumer_weight-suc p.consumer (waiting blank p),
                        ap (consumer_weight p.consumer) longer,
                      ),
                      omega (arith, longer),
                      refl,
                    )),
              )
      ]
    where
      envelope : MarketMessageEnvelope
      envelope = record {
        message = m;
        producer_timestamp_ns = time₀;
        queue_push_timestamp_ns = stamp time;
      }
  produce-Produced ended todo time cpu p e t v = (v, inl (ap is_ended e, refl))

  moved :
      (c : Consumer) (p : Pipeline B)
      → IsLive blank p
      → (knows_done c ≡ false) ⊎ (is_ended p.producer ≡ true)
      → IsLive blank (record p { consumer = c })
  moved c p v k = record {
    valid = v.valid;
    room = v.room;
    sending = v.sending;
    done = v.done;
    sent = v.sent;
    known = k;
  }

  -- The same where `producer_done` has been read.
  moved_done :
      (p : Pipeline B)
      → IsLive blank p
      → p.producer_done ≡ true
      → IsLive blank (record p { producer_done = true; consumer = at_empty })
  moved_done p v h = record {
    valid = v.valid;
    room = v.room;
    sending = v.sending;
    done = sym h ∙ v.done;
    sent = v.sent;
    known = inr (sym v.done ∙ h);
  }

  moved_not_yet :
      (p : Pipeline B)
      → IsLive blank p
      → p.producer_done ≡ false
      → IsLive blank (record p { producer_done = false; consumer = at_pop })
  moved_not_yet p v h = record {
    valid = v.valid;
    room = v.room;
    sending = v.sending;
    done = sym h ∙ v.done;
    sent = v.sent;
    known = inl refl;
  }

  empty_waiting :
      (p : Pipeline B)
      → IsLive blank p
      → ((is_empty p.queue ≡ true) × (waiting blank p ≡ 0))
        ⊎ ((is_empty p.queue ≡ false) × (0 < waiting blank p))
  empty_waiting p v = elim (empty_or_longer (contents blank p.queue)) [
    | inl nothing ↦ inl ((is_empty-contents blank p.queue v.valid).1 nothing, ap length nothing)
    | inr some_waiting ↦ elim (Bool-cases (is_empty p.queue)) [
      | inr something ↦ inr (something, some_waiting)
      | inl nothing ↦ absurd (
          omega
            (arith, some_waiting, ap length ((is_empty-contents blank p.queue v.valid).0 nothing)))
    ]
  ]

module _ {B : Type 0} (on_message : B → MarketMessage → Option B)
    (blank : MarketMessageEnvelope) where
  pub consume-Consumed :
      (c : Consumer) (readings : Readings) (p : Pipeline B)
      → p.consumer ≡ c
      → IsLive blank p
      → IsLive blank (consume on_message c readings p)
        × Consumed blank p (consume on_message c readings p)
  unfolding consume
  consume-Consumed at_done readings p e v = elim (Bool-cases p.producer_done) [
    | inl done ↦
        rw (done, consume)
          (
            moved_done blank p v done,
            inr (inl (omega (arith, ap (λ c. consumer_weight c (waiting blank p)) e))),
          )
    | inr not_yet ↦ elim (empty_waiting blank p v) [
      | inl (nothing, zero_waiting) ↦
          rw (not_yet, consume)
            (
              moved_not_yet blank p v not_yet,
              inr (
                  inr (
                    omega (
                      arith,
                      ap (λ c. consumer_weight c (waiting blank p)) e,
                      at_pop_weight_le (waiting blank p),
                    ),
                    zero_waiting,
                    refl,
                  )),
            )
      | inr (something, some_waiting) ↦
          rw (not_yet, consume)
            (
              moved_not_yet blank p v not_yet,
              inr (
                  inl (
                    omega (
                      arith,
                      ap (λ c. consumer_weight c (waiting blank p)) e,
                      at_pop_weight (waiting blank p) some_waiting,
                    ))),
            )
    ]
  ]
  consume-Consumed at_empty readings p e v = elim (empty_waiting blank p v) [
    | inl (nothing, zero_waiting) ↦
        rw (nothing, consume)
          (
            moved blank finished p v (ground (arith, v.known, e)),
            inr (inl (omega (arith, ap (λ c. consumer_weight c (waiting blank p)) e))),
          )
    | inr (something, some_waiting) ↦
        rw (something, consume)
          (
            moved blank at_pop p v (inl refl),
            inr (
                inl (
                  omega (
                    arith,
                    ap (λ c. consumer_weight c (waiting blank p)) e,
                    at_pop_weight (waiting blank p) some_waiting,
                  ))),
          )
  ]
  consume-Consumed at_pop readings p e v = elim (pop_lengths blank p.queue v.valid p.envelope) [
    | inl (failed, zero_waiting) ↦
        rw (failed, consume)
          (
            record {
              valid = v.valid;
              room = v.room;
              sending = v.sending;
              done = v.done;
              sent = v.sent;
              known = inl refl;
            },
            inr (
                inl (
                  omega (
                    arith,
                    ap (λ c. consumer_weight c (waiting blank p)) e,
                    ap (consumer_weight at_pop) zero_waiting,
                  ))),
          )
    | inr (went, shorter) ↦
        rw (went, consume)
          (
            record {
              valid = pop-IsValid p.queue p.envelope v.valid;
              room = omega (arith, v.room, capacity-pop p.queue p.envelope);
              sending = v.sending;
              done = v.done;
              sent = v.sent;
              known = inl refl;
            },
            inr (inl (omega (arith, shorter))),
          )
  ]
  consume-Consumed finished readings p e v = (v, inl (e, refl))
